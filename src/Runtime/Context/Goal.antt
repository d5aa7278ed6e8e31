-- ===== src/Runtime/Context/Goal.antt =====
-- `" ".join(goal.split())` of src/genesis/runtime/context/manager.py, line 77.
use genesis_ai.Prelude.{List, String, [], if◌then◌else◌, join, nat_eq, string_eq, ◌==◌, ◌∷◌, ◌⧺◌}
use Prim.Native.Char.{code}
use genesis_ai.Runtime.Context.Injection.{is_space}

-- The loop of `str.split`: `word` holds the characters since the last space.
split_from : String → String → List String
split_from word String.[] = if word == "" then [] else word ∷ []
split_from word (String.◌∷◌ c s) =
    let fresh = split_from "" s in
    let longer = split_from (word ⧺ String.◌∷◌ c "") s in
    if is_space (code c) then (if word == "" then fresh else word ∷ fresh) else longer

unfoldable pub normalized_goal : String → String
unfolding split_from
normalized_goal goal = join " " (split_from "" goal)
