-- ===== src/Server/CallerContext/RoundTrip.antt =====
-- What an agent reads of the caller that packages/server/src/caller-context.ts sends it
use vicoop_bridge.Prelude.{
  ◌≡◌, refl, sym, subst, Bool-cases, inl, inr, String, Bool, true, not, ◌&&◌, ◌||◌, Option, none,
  some, List, [], ◌∷◌, is_some, arith,
}
use vicoop_bridge.Protocol.FederatedPrincipal.{Text}
use vicoop_bridge.Protocol.CallerContext.{
  CallerAttestation, CallerContextV2, is_caller_context_v1, is_caller_context_v2,
}
use vicoop_bridge.Server.CallerContext.{
  CallerContextWireVersion, v1, v2, select_caller_context_version, CallerInput, unless_none,
  is_empty_context, candidate, create_canonical_caller_context, canonicalize_caller_context_v1,
  as_v1, serialize_caller_context_v1, serialize_caller_context, WireCaller, in_v1, in_v2,
  has_caller_input, task_caller,
}

-- What the schema of a version takes
abbrev pub is_wire_caller : WireCaller → Bool
is_wire_caller (in_v1 c) = is_caller_context_v1 c
is_wire_caller (in_v2 c) = is_caller_context_v2 c

-- The canonical context of what is sent
abbrev pub read_back : WireCaller → Option CallerContextV2
read_back (in_v1 c) = canonicalize_caller_context_v1 c
read_back (in_v2 c) = some c

abbrev pub is_expressible : CallerContextWireVersion → CallerContextV2 → Bool
is_expressible v1 c = not (is_some c.actor)
is_expressible v2 c = true

unless_none-twice :
    (given : Option (List CallerAttestation)) → unless_none (unless_none given) ≡ unless_none given
unless_none-twice none = refl
unless_none-twice (some []) = refl
unless_none-twice (some (a ∷ rest)) = refl

-- What `serializeCallerContextV2` sends
abbrev is_taken : CallerContextV2 → Bool
is_taken c = is_caller_context_v2 c && not (is_empty_context c)

-- A context that was made is what it was made from, and the schema takes it.
made_facts :
    (input : CallerInput) (c : CallerContextV2)
    → create_canonical_caller_context input ≡ some c
    → (is_taken c ≡ true) × (candidate input ≡ c)
unfolding create_canonical_caller_context
made_facts input c made = elim (Bool-cases (is_taken (candidate input))) [
  | inl fits ↦ subst Q {x = candidate input} {y = c} (cc) (fits, refl)
  | inr fails ↦ ground arith
]
  where
    Q : CallerContextV2 → Type 0
    Q z = (is_taken z ≡ true) × (candidate input ≡ z)

named :
    (valid p a n : Bool) → (valid && not (not p && not a && not n)) ≡ true → (p || a || n) ≡ true
named valid p a n h = ground arith

has_input :
    (input : CallerInput) (c : CallerContextV2)
    → create_canonical_caller_context input ≡ some c
    → has_caller_input input ≡ true
has_input input c made =
    named (is_caller_context_v2 (candidate input)) (is_some input.principal_id)
      (is_some input.actor_id) (is_some (unless_none input.attestations))
      (subst
        (λ z.
          (is_caller_context_v2 (candidate input)
            && not (
                not (is_some input.principal_id)
                && not (is_some input.actor_id)
                && not (is_some z)))
          ≡ true)
        (unless_none-twice input.attestations)
        (subst (λ (z : CallerContextV2). is_taken z ≡ true) (sym facts.1) facts.0))
  where
    facts : (is_taken c ≡ true) × (candidate input ≡ c)
    facts = made_facts input c made

-- A context without an actor in the form of v1
abbrev IsV1 : CallerContextV2 → Type 0
IsV1 c =
    (serialize_caller_context_v1 c ≡ some (as_v1 c))
    × (is_caller_context_v1 (as_v1 c) ≡ true)
    × (canonicalize_caller_context_v1 (as_v1 c) ≡ some c)

context-IsV1 :
    (p : Option Text) (actor : Option Text) (given : Option (List CallerAttestation))
    → is_taken (record { principal = p; actor = actor; attestations = given }) ≡ true
    → unless_none given ≡ given
    → not (is_some actor) ≡ true
    → IsV1 (record { principal = p; actor = actor; attestations = given })
unfolding create_canonical_caller_context canonicalize_caller_context_v1 serialize_caller_context_v1
context-IsV1 p (some actor) given valid kept without = ground arith
context-IsV1 p none none valid kept without = (ground arith, ground arith, rw valid refl)
context-IsV1 p none (some []) valid kept without = ground arith
context-IsV1 p none (some (a ∷ rest)) valid kept without =
    (ground arith, ground arith, rw valid refl)

abbrev IsSent : CallerContextWireVersion → CallerContextV2 → Type 0
IsSent version c =
    (wire : WireCaller) × (serialize_caller_context (some c) (some version) ≡ some wire)
    × (is_wire_caller wire ≡ true)
    × (read_back wire ≡ some c)

sent :
    (version : CallerContextWireVersion) (input : CallerInput) (c : CallerContextV2)
    → is_taken c ≡ true
    → unless_none c.attestations ≡ c.attestations
    → is_expressible version c ≡ true
    → IsSent version c
unfolding create_canonical_caller_context serialize_caller_context serialize_caller_context_v1
    canonicalize_caller_context_v1
sent v2 input c valid kept expressible = (in_v2 c, rw valid refl, ground arith, refl)
sent v1 input c valid kept expressible =
    let facts = context-IsV1 c.principal c.actor c.attestations valid kept expressible in
    (in_v1 (as_v1 c), rw facts.0 refl, facts.1, facts.2)

-- If the canonical context of a caller can be made, its agent understands a version, and v1 only
-- for a caller without an actor, then the task carries the caller in that version, the schema of
-- that version takes it, and reading it back gives the same canonical context.
pub task_caller-read_back :
    (capabilities : List String) (version : CallerContextWireVersion) (input : CallerInput)
    (c : CallerContextV2)
    → select_caller_context_version capabilities ≡ some version
    → create_canonical_caller_context input ≡ some c
    → is_expressible version c ≡ true
    → (wire : WireCaller) × (task_caller capabilities input ≡ some wire)
      × (is_wire_caller wire ≡ true)
      × (read_back wire ≡ some c)
unfolding task_caller
task_caller-read_back capabilities version input c selected made expressible =
    rw selected
      (rw (has_input input c made) (rw made (sent version input c facts.0 kept expressible)))
  where
    facts : (is_taken c ≡ true) × (candidate input ≡ c)
    facts = made_facts input c made

    kept : unless_none c.attestations ≡ c.attestations
    kept =
        subst (λ (z : CallerContextV2). unless_none z.attestations ≡ z.attestations) facts.1
          (unless_none-twice input.attestations)
