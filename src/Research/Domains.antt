-- ===== src/Research/Domains.antt =====
-- src/genesis/research/models.py (the domains) and src/genesis/research/domains/taxonomy.py.
use genesis_ai.Prelude.{List, [], ◌∷◌, String}

pub data ResearchDomain : Type 0 where
  technology property_business management property_market : ResearchDomain

abbrev pub domain_value : ResearchDomain → String
domain_value ResearchDomain.technology = "TECHNOLOGY"
domain_value ResearchDomain.property_business = "PROPERTY_BUSINESS"
domain_value ResearchDomain.management = "MANAGEMENT"
domain_value ResearchDomain.property_market = "PROPERTY_MARKET"

pub record ResearchDomainProfile : Type 0 where
  pub domain : ResearchDomain
  pub display_name : String
  pub purpose : String
  pub scope_boundary : List String
  pub expected_evidence : List String
  pub allowed_findings : List String
  pub allowed_recommendations : List String
  pub engine_id : String

abbrev shared_research_engine_id : String
shared_research_engine_id = "genesis.research.engine.v1"

-- `DOMAIN_TAXONOMY[domain]`: the taxonomy has an entry for every domain.
unfoldable pub domain_profile : ResearchDomain → ResearchDomainProfile
domain_profile ResearchDomain.technology = record {
  domain = ResearchDomain.technology;
  display_name = "Teknologi";
  purpose = "Evaluate technologies, models, frameworks, tools, and architecture options.";
  scope_boundary =
      "Technical fitness, security, interoperability, cost, and maintainability."
      ∷ "No automatic ModelGateway, infrastructure, or production configuration change." ∷ [];
  expected_evidence =
      "Versioned vendor or project documentation."
      ∷ "Reproducible benchmark, evaluation, or compatibility evidence."
      ∷ "Security, operational, and cost constraints." ∷ [];
  allowed_findings = "Capability gap." ∷ "Compatibility or security risk." ∷ "Trade-off." ∷ [];
  allowed_recommendations =
      "Evaluation or proof-of-concept proposal."
      ∷ "Governed adoption, upgrade, or rejection recommendation." ∷ [];
  engine_id = shared_research_engine_id;
}
domain_profile ResearchDomain.property_business = record {
  domain = ResearchDomain.property_business;
  display_name = "Model Bisnis Properti";
  purpose = "Evaluate property business models, packages, pricing, and unit economics.";
  scope_boundary =
      "Commercial assumptions, scenarios, value proposition, revenue, and cost model."
      ∷ "No pricing, contract, budget, or commercial decision becomes authoritative." ∷ [];
  expected_evidence =
      "Traceable financial and operating assumptions."
      ∷ "Comparable market or internal performance evidence."
      ∷ "Scenario sensitivity and limitations." ∷ [];
  allowed_findings =
      "Business-model opportunity." ∷ "Unit-economics risk." ∷ "Assumption gap." ∷ [];
  allowed_recommendations =
      "Scenario or experiment proposal."
      ∷ "Pricing or package recommendation requiring domain review." ∷ [];
  engine_id = shared_research_engine_id;
}
domain_profile ResearchDomain.management = record {
  domain = ResearchDomain.management;
  display_name = "Manajemen Perusahaan";
  purpose = "Evaluate company processes, governance, SOPs, organization, and KPIs.";
  scope_boundary =
      "Process, control, accountability, capacity, and management benchmark."
      ∷ "No automatic policy, role, KPI, permission, or organizational change." ∷ [];
  expected_evidence =
      "Approved internal policy, SOP, and performance evidence."
      ∷ "Applicable governance or management benchmark."
      ∷ "Stakeholder and implementation constraints." ∷ [];
  allowed_findings = "Process gap." ∷ "Control or governance risk." ∷ "KPI ambiguity." ∷ [];
  allowed_recommendations =
      "Draft SOP, control, or KPI improvement." ∷ "Human-reviewed operating-model recommendation."
      ∷ [];
  engine_id = shared_research_engine_id;
}
domain_profile ResearchDomain.property_market = record {
  domain = ResearchDomain.property_market;
  display_name = "Properti";
  purpose = "Evaluate property markets, regions, competitors, regulation, and social trends.";
  scope_boundary =
      "Market, asset, location, competitor, demand, regulation, and trend analysis."
      ∷ "No acquisition, sale, investment, legal, or regulatory decision is executed." ∷ [];
  expected_evidence =
      "Fresh, cited market or transaction evidence."
      ∷ "Approved regulatory or official source where applicable."
      ∷ "Region, time period, method, reliability, and limitations." ∷ [];
  allowed_findings = "Market signal." ∷ "Property risk." ∷ "Regulatory or evidence gap." ∷ [];
  allowed_recommendations =
      "Further due-diligence proposal."
      ∷ "Human-reviewed market or property strategy recommendation." ∷ [];
  engine_id = shared_research_engine_id;
}
