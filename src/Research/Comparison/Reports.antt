-- ===== src/Research/Comparison/Reports.antt =====
-- Which findings `compare` (src/genesis/research/engine/comparison.py) does not leave out.
use genesis_ai.Prelude.{
  Perm, IsSorted, str_leb, sort-perm, sort-IsSorted, str_leb-IsTotalOrder, ==_iff, Bool, Bool-cases,
  In, In-append_left, In-append_right, In-map_iff, List, Option-cases, String, [], ap, contains,
  false, filter, filter-In, flat_map, flat_map-In, if◌then◌else◌, inl, inr, keys, length, lookup,
  lookup-assign, ltb, map, nat_eq, not, refl, some, string_eq, sym, true, ℕ, ◌++◌, ◌<◌, ◌==◌, ◌∙◌,
  ◌∷◌, ◌≡◌, arith,
}
use mathlib.Core.List.{append_assoc, append-nil}
use genesis_ai.Research.Comparison.{
  ComparisonFindingKind, ComparableDocument, ComparisonFinding, TextMethods, get_list, or_empty,
  push, missing_finding, duplicate_finding, duplicate_of, outdated_finding, document_findings,
  hashes_from, key_values_from, duplicates, conflicts, missing_fields, outdated, is_outdated, parse,
  compare,
}

-- The sources of the documents that have a hash, in the order of the documents.
abbrev pub sources_of : String → List ComparableDocument → List String
sources_of hash documents = map (λ d. d.source_id) (filter (λ d. d.content_hash == hash) documents)

get_list-push :
    (k j x : String) (d : List (String × List String))
    → get_list j (push k x d) ≡ (if k == j then get_list j d ++ x ∷ [] else get_list j d)
get_list-push k j x d =
    ap or_empty (lookup-assign k j (get_list k d ++ x ∷ []) d) ∙ chosen (k == j) refl
  where
    chosen :
        (b : Bool)
        → (k == j) ≡ b
        → or_empty (if b then some (get_list k d ++ x ∷ []) else lookup j d)
          ≡ (if b then get_list j d ++ x ∷ [] else get_list j d)
    chosen true e = ap (λ i. get_list i d ++ x ∷ []) ((==_iff k j).0 e)
    chosen false e = refl

-- The sources listed under a hash are those of the documents that have it.
hashes_from-sources :
    (hash : String) (d : List (String × List String)) (documents : List ComparableDocument)
    → get_list hash (hashes_from d documents) ≡ get_list hash d ++ sources_of hash documents
hashes_from-sources hash d [] = sym (append-nil (get_list hash d))
hashes_from-sources hash d (document ∷ documents) =
    hashes_from-sources hash (push document.content_hash document.source_id d) documents
    ∙ ap (λ ids. ids ++ sources_of hash documents)
        (get_list-push document.content_hash hash document.source_id d)
    ∙ chosen (document.content_hash == hash)
  where
    chosen :
        (b : Bool)
        → (if b then get_list hash d ++ document.source_id ∷ [] else get_list hash d)
            ++ sources_of hash documents
          ≡ get_list hash d
            ++ map
                (λ c. c.source_id)
                (if b
                  then document ∷ filter (λ c. c.content_hash == hash) documents
                  else filter (λ c. c.content_hash == hash) documents)
    chosen true =
        append_assoc (get_list hash d) (document.source_id ∷ []) (sources_of hash documents)
    chosen false = refl

lookup-In :
    {A : Type 0} (key : String) (v : A) (d : List (String × A))
    → lookup key d ≡ some v
    → In (key, v) d
lookup-In key v [] h = absurd (cc)
lookup-In key v ((j, w) ∷ d) h = elim (Bool-cases (j == key)) [
  | inl e ↦
      let w_same : some w ≡ some v = rw e at h in
      inl (ap (λ i. (i, w)) ((==_iff j key).0 e) ∙ ap (λ u. (key, u)) (cc))
  | inr e ↦ inr (lookup-In key v d (rw e at h))
]

get_list-In :
    (key : String) (d : List (String × List String))
    → ltb 1 (length (get_list key d)) ≡ true
    → In (key, get_list key d) d
get_list-In key d h = elim (Option-cases (lookup key d)) [
  | inl e ↦ absurd (impossible (ap (λ o. ltb 1 (length (or_empty o))) e))
  | inr (v, e) ↦ rw e (lookup-In key v d e)
]
  where
    impossible : ltb 1 (length (get_list key d)) ≡ false → ⊥
    impossible k = cc

duplicates-In :
    (hash : String) (documents : List ComparableDocument)
    → 1 < length (sources_of hash documents)
    → In (duplicate_finding (sources_of hash documents)) (duplicates (hashes_from [] documents))
duplicates-In hash documents h =
    let hashes = hashes_from [] documents in
    let same : get_list hash hashes ≡ sources_of hash documents =
      hashes_from-sources hash [] documents in
    let several : ltb 1 (length (get_list hash hashes)) ≡ true = rw same (ground arith) in
    flat_map-In duplicate_of (duplicate_finding (sources_of hash documents))
      (hash, get_list hash hashes) hashes (get_list-In hash hashes several)
      (rw same (rw (rw same at several) (inl refl)))

module _ (text : TextMethods) where
  missing_fields-In :
      (required_fields : List String) (document : ComparableDocument) (required : String)
      → In required required_fields
      → contains (keys (parse text document.content)) (text.casefold required) ≡ false
      → In (missing_finding document required) (missing_fields text required_fields document)
  missing_fields-In required_fields document required m h =
      (In-map_iff (missing_finding document) (missing_finding document required) (
          filter (λ r. not (contains (keys (parse text document.content)) (text.casefold r)))
            required_fields)).1
        (
          required,
          filter-In (λ r. not (contains (keys (parse text document.content)) (text.casefold r)))
              required required_fields m (ap not h),
          refl,
        )

  -- Where several of the documents have one hash, `compare` reports a duplicate with the sources of all
  -- of them, sorted, for a human to decide.
  pub compare-duplicate :
      (documents : List ComparableDocument) (required_fields : List String) (current_year : ℕ)
      (hash : String)
      → 1 < length (sources_of hash documents)
      → (f : ComparisonFinding) × In f (compare text documents required_fields current_year)
        × (f.kind ≡ ComparisonFindingKind.duplicate)
        × Perm f.source_ids (sources_of hash documents)
        × IsSorted str_leb f.source_ids
        × (f.requires_human_decision ≡ true)
  unfolding compare
  compare-duplicate documents required_fields current_year hash h =
      let f = duplicate_finding (sources_of hash documents) in
      let repeated = duplicates (hashes_from [] documents) in
      let contradicted = conflicts (key_values_from text [] documents) in
      (
        f,
        In-append_right f (flat_map (document_findings text required_fields current_year) documents)
            (repeated ++ contradicted)
            (In-append_left f repeated contradicted (duplicates-In hash documents h)),
        refl,
        sort-perm str_leb (sources_of hash documents),
        sort-IsSorted str_leb str_leb-IsTotalOrder (sources_of hash documents),
        refl,
      )

  -- What is found in one document is reported.
  document_findings-In :
      (documents : List ComparableDocument) (required_fields : List String) (current_year : ℕ)
      (document : ComparableDocument) (f : ComparisonFinding)
      → In document documents
      → In f (document_findings text required_fields current_year document)
      → In f (compare text documents required_fields current_year)
  unfolding compare
  document_findings-In documents required_fields current_year document f m k =
      In-append_left f (flat_map (document_findings text required_fields current_year) documents)
        (duplicates (hashes_from [] documents) ++ conflicts (key_values_from text [] documents))
        (flat_map-In (document_findings text required_fields current_year) f document documents m k)

  -- A document that has no value for a required field is reported, and so is one that names a year
  -- before the current one.
  compare-missing :
      (documents : List ComparableDocument) (required_fields : List String) (current_year : ℕ)
      (document : ComparableDocument) (required : String)
      → In document documents
      → In required required_fields
      → contains (keys (parse text document.content)) (text.casefold required) ≡ false
      → In (missing_finding document required) (compare text documents required_fields current_year)
  compare-missing documents required_fields current_year document required m r h =
      document_findings-In documents required_fields current_year document
        (missing_finding document required) m
        (In-append_left (missing_finding document required)
          (missing_fields text required_fields document) (outdated text current_year document)
          (missing_fields-In required_fields document required r h))

  compare-outdated :
      (documents : List ComparableDocument) (required_fields : List String) (current_year : ℕ)
      (document : ComparableDocument)
      → In document documents
      → is_outdated text current_year document ≡ true
      → In (outdated_finding document) (compare text documents required_fields current_year)
  compare-outdated documents required_fields current_year document m h =
      document_findings-In documents required_fields current_year document
        (outdated_finding document) m
        (In-append_right (outdated_finding document) (missing_fields text required_fields document)
          (outdated text current_year document) (rw h (inl refl)))
