-- ===== src/Protocol/CallerContext.antt =====
-- packages/protocol/src/index.ts: the schemas of a caller context. A parsed object has no other
-- fields, since the schemas are strict; that of a single field is the field.
use vicoop_bridge.Prelude.{
  ℕ, Bool, true, false, not, ◌&&◌, Option, none, some, List, length, leb, forall_in,
}
use vicoop_bridge.Protocol.FederatedPrincipal.{Text, text_same, utf16_length, is_empty}

abbrev pub has_length : (most : ℕ) → Text → Bool
has_length most s = not (is_empty s) && leb (utf16_length s) most

-- `.optional()`
abbrev pub is_optional {ℓ} : {A : Type ℓ} → (A → Bool) → Option A → Bool
is_optional p none = true
is_optional p (some a) = p a

abbrev pub is_identifier : Text → Bool
is_identifier s = has_length 512 s

abbrev pub is_summary : Text → Bool
is_summary s = has_length 256 s

pub record CallerPlatform : Type 0 where
  pub provider : Option Text
  pub workspace_id : Option Text

pub record CallerProfile : Type 0 where
  pub display_name : Option Text
  pub username : Option Text

-- The identity that v1 presents has the same fields.
pub record CallerAttestation : Type 0 where
  pub credential_id : Text
  pub issuer : Text
  pub subject : Text
  pub method : Text
  pub assurance : Option Text
  pub platform : Option CallerPlatform
  pub observed_invocation : Option (Option Text)
  pub profile : Option CallerProfile

abbrev pub is_attestation : CallerAttestation → Bool
is_attestation a =
    is_identifier a.credential_id
    && is_identifier a.issuer
    && is_identifier a.subject
    && is_summary a.method
    && is_optional is_summary a.assurance
    && is_optional (λ p. is_optional is_summary p.provider && is_optional is_summary p.workspace_id)
        a.platform
    && is_optional (λ target. is_optional is_identifier target) a.observed_invocation
    && is_optional (λ p. is_optional is_summary p.display_name && is_optional is_summary p.username)
        a.profile

abbrev pub are_attestations : Option (List CallerAttestation) → Bool
are_attestations given = is_optional (λ l. leb (length l) 8 && forall_in is_attestation l) given

pub record CallerContextV1 : Type 0 where
  pub authenticated : Option Text
  pub presented : Option (List CallerAttestation)

abbrev pub is_caller_context_v1 : CallerContextV1 → Bool
is_caller_context_v1 c = is_optional is_identifier c.authenticated && are_attestations c.presented

pub record CallerContextV2 : Type 0 where
  pub principal : Option Text
  pub actor : Option Text
  pub attestations : Option (List CallerAttestation)

-- An actor needs a principal, and is another one.
abbrev pub is_actor_of : (principal actor : Option Text) → Bool
is_actor_of principal none = true
is_actor_of none (some actor) = false
is_actor_of (some principal) (some actor) = not (text_same actor principal)

abbrev pub is_caller_context_v2 : CallerContextV2 → Bool
is_caller_context_v2 c =
    is_optional is_identifier c.principal
    && is_optional is_identifier c.actor
    && are_attestations c.attestations
    && is_actor_of c.principal c.actor
