-- ===== src/Server/Principal/Unverified.antt =====
-- What a caller without a verified email may claim, in packages/server/src/auth/principal.ts.
use vicoop_bridge.Prelude.{◌≡◌, refl, false, Option, Option-cases, inl, inr}
use vicoop_bridge.Protocol.FederatedPrincipal.{Text}
use vicoop_bridge.Server.Principal.{
  ParsedPrincipal, eth, google_sub, google_email, google_domain, api_key, federated, VerifiedCaller,
  is_verified, match_parsed, match_principal, parse_principal,
}

-- A caller that claims another email and another domain
abbrev pub with_claims : (email hosted_domain : Option Text) → VerifiedCaller → VerifiedCaller
with_claims email hosted_domain caller = record caller {
  email = email;
  hosted_domain = hosted_domain;
}

match_parsed-with_claims :
    (lower : Text → Text) (entry : Text) (p : ParsedPrincipal) (caller : VerifiedCaller)
    (email hosted_domain : Option Text)
    → is_verified caller ≡ false
    → match_parsed lower entry p (with_claims email hosted_domain caller)
      ≡ match_parsed lower entry p caller
match_parsed-with_claims lower entry (eth _) caller e d h = refl
match_parsed-with_claims lower entry (google_sub _) caller e d h = refl
match_parsed-with_claims lower entry (google_email _) caller e d h = rw h refl
match_parsed-with_claims lower entry (google_domain _) caller e d h = rw h refl
match_parsed-with_claims lower entry (api_key _) caller e d h = refl
match_parsed-with_claims lower entry (federated _) caller e d h = refl

-- When the email of a caller is not verified, no email and no hosted domain that it claims changes
-- which entries of the allowed callers it satisfies.
pub match_principal-with_claims :
    (lower : Text → Text) (entry : Text) (caller : VerifiedCaller)
    (email hosted_domain : Option Text)
    → is_verified caller ≡ false
    → match_principal lower entry (with_claims email hosted_domain caller)
      ≡ match_principal lower entry caller
unfolding match_principal
match_principal-with_claims lower entry caller e d h =
    elim (Option-cases (parse_principal lower entry)) [
      | inl nothing ↦ rw nothing refl
      | inr (p, parsed) ↦ rw parsed (match_parsed-with_claims lower entry p caller e d h)
    ]
