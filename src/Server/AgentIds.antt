-- ===== src/Server/AgentIds.antt =====
-- packages/server/src/reserved-agent-ids.ts. Only the capitals of ASCII have a lower case that can
-- occur in a reserved id, so `toLowerCase` is that of ASCII.
use Prim.Native.Char.{code}
use vicoop_bridge.Prelude.{
  ℕ, ◌+◌, String, Bool, true, false, ◌&&◌, Option, List, [], ◌∷◌, map, ◌==◌, nat_eq, leb,
  if◌then◌else◌, exists, find_first,
}

abbrev pub reserved_agent_ids : List String
reserved_agent_ids = "admin" ∷ []

codes : String → List ℕ
codes String.[] = []
codes (String.◌∷◌ c rest) = code c ∷ codes rest

lower_case : ℕ → ℕ
lower_case c = if leb b'A' c && leb c b'Z' then c + 32 else c

same_codes : List ℕ → List ℕ → Bool
same_codes [] [] = true
same_codes (a ∷ xs) (b ∷ ys) = a == b && same_codes xs ys
same_codes _ _ = false

unfoldable pub is_reserved_agent_id : String → Bool
unfolding codes lower_case same_codes
is_reserved_agent_id id =
    let lowered = map lower_case (codes id) in
    exists (λ reserved. same_codes (codes reserved) lowered) reserved_agent_ids

unfoldable pub find_reserved_agent_id : List String → Option String
unfolding is_reserved_agent_id
find_reserved_agent_id = find_first is_reserved_agent_id
