-- ===== src/Server/Principal/Examples.antt =====
-- Tests of packages/server/src/auth/principal.ts, on texts without capitals.
use vicoop_bridge.Prelude.{◌≡◌, refl, true, false, none, some, [], ◌∷◌, ◌++◌}
use vicoop_bridge.Protocol.FederatedPrincipal.{Text}
use vicoop_bridge.Server.Principal.{
  VerifiedCaller, google_domain_prefix, google_prefix, google_sub_prefix, match_principal,
  parse_principal, validate_principal,
}
use vicoop_bridge.Server.Principal.Unverified.{with_claims, match_principal-with_claims}

abbrev same : Text → Text
same s = s

-- `a.b`
abbrev domain : Text
domain = b'a' ∷ b'.' ∷ b'b' ∷ []

abbrev entry : Text
entry = google_domain_prefix ++ domain

abbrev caller : VerifiedCaller
caller = record {
  principal_id = google_prefix ++ b'7' ∷ [];
  actor_id = none;
  token_exchange = none;
  email = some (b'x' ∷ b'@' ∷ domain);
  email_verified = some true;
  hosted_domain = none;
}

abbrev unverified : VerifiedCaller
unverified = record caller { email_verified = none }

is_let_in : match_principal same entry caller ≡ true
unfolding match_principal parse_principal
is_let_in = refl

is_refused : match_principal same entry unverified ≡ false
unfolding match_principal parse_principal
is_refused = refl

by_sub : match_principal same (google_sub_prefix ++ b'7' ∷ []) unverified ≡ true
unfolding match_principal parse_principal
by_sub = refl

-- Spaces around an entry do not count; a domain has a dot.
validated : validate_principal same (32 ∷ entry ++ 10 ∷ []) ≡ some entry
unfolding validate_principal parse_principal
validated = refl

no_dot : validate_principal same (google_domain_prefix ++ b'a' ∷ []) ≡ none
unfolding validate_principal parse_principal
no_dot = refl

match_principal-with_claims_example :
    match_principal same entry (with_claims (some (b'y' ∷ b'@' ∷ domain)) (some domain) unverified)
    ≡ match_principal same entry unverified
match_principal-with_claims_example =
    match_principal-with_claims same entry unverified (some (b'y' ∷ b'@' ∷ domain)) (some domain)
      refl
