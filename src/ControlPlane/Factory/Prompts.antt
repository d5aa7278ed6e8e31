-- ===== src/ControlPlane/Factory/Prompts.antt =====
-- src/genesis/control_plane/factory/prompts.py. `format_map` is `str.format_map`: the text, or the
-- name of the value that is missing.
use genesis_ai.Prelude.{
  List, Result, String, err, if◌then◌else◌, map_err, nat_eq, ok, string_eq, ◌==◌, ◌||◌, ◌⧺◌,
}
use genesis_ai.Capabilities.Words.{strip}

pub record PromptTemplateVersion : Type 0 where
  pub prompt_id : String
  pub version : String
  pub template : String
  pub sha256 : String

unfoldable pub render :
    (format_map : String → List (String × String) → Result String String)
    → PromptTemplateVersion
    → List (String × String)
    → Result String String
render format_map self values =
    map_err (λ name. "prompt value is missing: " ⧺ name) (format_map self.template values)

unfoldable pub version_prompt :
    (sha256_hex : String → String)
    → (prompt_id version template : String) → Result String PromptTemplateVersion
version_prompt sha256_hex prompt_id version template =
    if prompt_id == "" || version == "" || strip template == ""
    then err "prompt id, version, and template are required"
    else ok (record {
      prompt_id = prompt_id;
      version = version;
      template = template;
      sha256 = sha256_hex template;
    })
