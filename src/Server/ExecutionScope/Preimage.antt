-- ===== src/Server/ExecutionScope/Preimage.antt =====
-- The preimage of an execution scope's id (packages/protocol/src/federated-principal.ts) tells agents
-- and principals apart.
use vicoop_bridge.Prelude.{
  ℕ, ◌+◌, ◌-◌, ◌*◌, ◌/◌, ◌%◌, ◌<◌, ◌≡◌, ◌∙◌, sym, ap, refl, true, ◌&&◌, ◌||◌, Option, none, some,
  [], ◌∷◌, ◌++◌, ◌==◌, nat_eq, ltb, leb, if◌then◌else◌, arith, ==_iff, if_cases,
}
use vicoop_bridge.Protocol.FederatedPrincipal.{Text}
use vicoop_bridge.Server.ExecutionScope.{
  hex_digit, unicode_escape, json_char, close_string, json_string, scope_tag, policy_text,
  execution_scope_policy, execution_scope_preimage,
}

-- Reading one character of a JSON string back
abbrev unhex : ℕ → ℕ
unhex k = if ltb k 58 then k - 48 else k - 87

abbrev read_hex : Text → Option (ℕ × Text)
read_hex (a ∷ b ∷ c ∷ d ∷ s) = some (unhex a * 4096 + unhex b * 256 + unhex c * 16 + unhex d, s)
read_hex _ = none

abbrev unescape : ℕ → ℕ
unescape k =
    if k == b'b'
    then 8
    else if k == b't'
    then 9
    else if k == b'n'
    then 10
    else if k == b'f'
    then 12
    else if k == b'r'
    then 13
    else k

abbrev read_escape : Text → Option (ℕ × Text)
read_escape [] = none
read_escape (k ∷ s) = let code = read_hex s in if k == b'u' then code else some (unescape k, s)

abbrev read_char : Text → Option (ℕ × Text)
read_char [] = none
read_char (c ∷ s) =
    let escaped = read_escape s in
    if c == 92 then escaped else if c == 34 then none else some (c, s)

abbrev read : ℕ → Text → Option (ℕ × Text)
read c s = some (c, s)

unhex-hex_digit : (d : ℕ) → d < 16 → unhex (hex_digit d) ≡ d
unhex-hex_digit d h = ground arith

read_hex-hex_digit : (c : ℕ) (s : Text) → c < 65536 → read_char (unicode_escape c ++ s) ≡ read c s
read_hex-hex_digit c s h =
    rw
      (
        unhex-hex_digit (c / 4096) (omega arith),
        unhex-hex_digit (c / 256 % 16) (omega arith),
        unhex-hex_digit (c / 16 % 16) (omega arith),
        unhex-hex_digit (c % 16) (omega arith),
      )
      (ap (λ n. read n s) (omega arith))

read_char-json_char : (c : ℕ) (s : Text) → read_char (json_char c ++ s) ≡ read c s
read_char-json_char c s =
    if_cases (λ z. read_char (z ++ s) ≡ read c s) (c == 34) (λ e. is_char 34 e)
      λ n1.
        if_cases (λ z. read_char (z ++ s) ≡ read c s) (c == 92) (λ e. is_char 92 e)
          λ n2.
            if_cases (λ z. read_char (z ++ s) ≡ read c s) (c == 8) (λ e. is_char 8 e)
              λ n3.
                if_cases (λ z. read_char (z ++ s) ≡ read c s) (c == 9) (λ e. is_char 9 e)
                  λ n4.
                    if_cases (λ z. read_char (z ++ s) ≡ read c s) (c == 10) (λ e. is_char 10 e)
                      λ n5.
                        if_cases (λ z. read_char (z ++ s) ≡ read c s) (c == 12) (λ e. is_char 12 e)
                          λ n6.
                            if_cases (λ z. read_char (z ++ s) ≡ read c s) (c == 13)
                              (λ e. is_char 13 e)
                              λ n7.
                                if_cases (λ z. read_char (z ++ s) ≡ read c s)
                                  (ltb c 32 || leb 55296 c && leb c 57343)
                                  (λ e. read_hex-hex_digit c s (ground (arith, e)))
                                  λ n8. rw (n2, n1) refl
  where
    is_char : (d : ℕ) → (c == d) ≡ true → read d s ≡ read c s
    is_char d e = ap (λ n. read n s) (sym ((==_iff c d).0 e))

read_char-quote : (s : Text) → read_char (34 ∷ s) ≡ none
read_char-quote s = refl

read-lem : (c d : ℕ) (s t : Text) → read c s ≡ read d t → (c ≡ d) × (s ≡ t)
read-lem c d s t e = (cc, cc)

json_char-lem : (c d : ℕ) (s t : Text) → json_char c ++ s ≡ json_char d ++ t → (c ≡ d) × (s ≡ t)
json_char-lem c d s t e =
    read-lem c d s t (sym (read_char-json_char c s) ∙ ap read_char e ∙ read_char-json_char d t)

close_string-lem :
    (s t after next : Text) → close_string s after ≡ close_string t next → (s ≡ t) × (after ≡ next)
close_string-lem [] [] after next e = (refl, cc)
close_string-lem [] (d ∷ t) after next e = absurd (
    some_ne
      (sym (read_char-quote after) ∙ ap read_char e ∙ read_char-json_char d (close_string t next)))
  where
    some_ne : {x : ℕ × Text} → ◌≡◌ {A = Option (ℕ × Text)} none (some x) → ⊥
    some_ne h = cc
close_string-lem (c ∷ s) [] after next e = absurd (
    some_ne (
      sym (read_char-quote next)
      ∙ ap read_char (sym e)
      ∙ read_char-json_char c (close_string s after)))
  where
    some_ne : {x : ℕ × Text} → ◌≡◌ {A = Option (ℕ × Text)} none (some x) → ⊥
    some_ne h = cc
close_string-lem (c ∷ s) (d ∷ t) after next e =
    let (head, tail) = json_char-lem c d (close_string s after) (close_string t next) e in
    let (rest, end) = close_string-lem s t after next tail in
    (ap (λ x. x ∷ s) head ∙ ap (λ u. d ∷ u) rest, end)

tail-lem : (c : ℕ) (s t : Text) → c ∷ s ≡ c ∷ t → s ≡ t
tail-lem c s t e = cc

-- One member of the array and the comma or the bracket after it
member-lem :
    (c : ℕ) (s t after next : Text)
    → json_string s (c ∷ after) ≡ json_string t (c ∷ next)
    → (s ≡ t) × (after ≡ next)
member-lem c s t after next e =
    let (same, rest) = close_string-lem s t (c ∷ after) (c ∷ next) (tail-lem 34 _ _ e) in
    (same, tail-lem c after next rest)

-- Two execution scopes have the same hash preimage only if they are for the same agent and the same
-- principal.
pub execution_scope_preimage-injective :
    (a b p q : Text)
    → execution_scope_preimage a p ≡ execution_scope_preimage b q
    → (a ≡ b) × (p ≡ q)
unfolding execution_scope_preimage
execution_scope_preimage-injective a b p q e =
    let (tag, after_tag) = member-lem b',' scope_tag scope_tag _ _ (tail-lem b'[' _ _ e) in
    let (policy, after_policy) =
      member-lem b',' (policy_text (execution_scope_policy p))
        (policy_text (execution_scope_policy q)) _ _ after_tag in
    let (agent, after_agent) = member-lem b',' a b _ _ after_policy in
    (agent, (member-lem b']' p q [] [] after_agent).0)
