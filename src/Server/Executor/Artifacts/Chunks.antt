-- ===== src/Server/Executor/Artifacts/Chunks.antt =====
-- What the chunks of an artifact come to, in packages/server/src/executor.ts.
use mathlib.Core.List.{append-nil}
use vicoop_bridge.Prelude.{
  ◌≡◌, refl, ap, ◌∙◌, String, Bool, true, false, not, ◌&&◌, ◌||◌, ◌==◌, string_eq, Option, none,
  some, List, [], ◌∷◌, ◌++◌, ◌⧺◌, Dict, if◌then◌else◌, get_or, keep, forall_in, lookup, insert,
  lookup-insert, arith, Bool-cases, inl, inr, ==_iff, and_both,
}
use vicoop_bridge.Protocol.{A2xPart, text, A2xArtifact}
use vicoop_bridge.Server.State.{ArtifactEvent}
use vicoop_bridge.Server.Executor.Artifacts.{
  merge_artifact_parts, merge_chunk, merge_first, append_artifact_chunk, insert_artifacts,
  artifact_map,
}

abbrev pub has_id : String → A2xArtifact → Bool
has_id id a = a.artifact_id == id

abbrev pub last_of {ℓ} : {A : Type ℓ} → List A → Option A → Option A
last_of [] o = o
last_of (x ∷ xs) o = last_of xs (some x)

-- The last artifact of an id stands in the map.
lookup-insert_artifacts :
    (id : String) (merged : Dict String A2xArtifact) (xs : List A2xArtifact)
    → lookup id (insert_artifacts merged xs) ≡ last_of (keep (has_id id) xs) (lookup id merged)
unfolding insert_artifacts
lookup-insert_artifacts id merged [] = refl
lookup-insert_artifacts id merged (a ∷ xs) =
    lookup-insert_artifacts id (insert a.artifact_id a merged) xs
    ∙ rw (lookup-insert a.artifact_id id a merged) (elim (Bool-cases (a.artifact_id == id)) [
      | inl hit ↦ rw hit refl
      | inr miss ↦ rw miss refl
    ])

keep-append :
    (id : String) (xs ys : List A2xArtifact)
    → keep (has_id id) (xs ++ ys) ≡ keep (has_id id) xs ++ keep (has_id id) ys
keep-append id [] ys = refl
keep-append id (a ∷ xs) ys = elim (Bool-cases (a.artifact_id == id)) [
  | inl hit ↦ rw hit (ap (λ l. a ∷ l) (keep-append id xs ys))
  | inr miss ↦ rw miss (keep-append id xs ys)
]

keep-merge_first_other :
    (id : String) (xs : List A2xArtifact) (c : A2xArtifact)
    → (c.artifact_id == id) ≡ false
    → keep (has_id id) (merge_first xs c) ≡ keep (has_id id) xs
unfolding merge_first merge_chunk
keep-merge_first_other id [] c h = rw h refl
keep-merge_first_other id (a ∷ xs) c h = elim (Bool-cases (a.artifact_id == c.artifact_id)) [
  | inl hit ↦ rw hit (
      ground (
        arith,
        ==_iff a.artifact_id c.artifact_id,
        ==_iff a.artifact_id id,
        ==_iff c.artifact_id id,
      ))
  | inr miss ↦ rw miss (elim (Bool-cases (a.artifact_id == id)) [
    | inl kept ↦ rw kept (ap (λ l. a ∷ l) (keep-merge_first_other id xs c h))
    | inr gone ↦ rw gone (keep-merge_first_other id xs c h)
  ])
]

keep-merge_first :
    (id : String) (xs : List A2xArtifact) (c : A2xArtifact)
    → (c.artifact_id == id) ≡ true
    → keep (has_id id) (merge_first xs c) ≡ merge_first (keep (has_id id) xs) c
unfolding merge_first merge_chunk
keep-merge_first id [] c h = rw h refl
keep-merge_first id (a ∷ xs) c h = elim (Bool-cases (a.artifact_id == c.artifact_id)) [
  | inl hit ↦
      let mine : (a.artifact_id == id) ≡ true = ground (
        arith,
        ==_iff a.artifact_id c.artifact_id,
        ==_iff a.artifact_id id,
        ==_iff c.artifact_id id,
      ) in
      rw hit (rw mine (rw hit refl))
  | inr miss ↦
      let other : (a.artifact_id == id) ≡ false = ground (
        arith,
        ==_iff a.artifact_id c.artifact_id,
        ==_iff a.artifact_id id,
        ==_iff c.artifact_id id,
      ) in
      rw miss (rw other (keep-merge_first id xs c h))
]

-- The one text of an artifact or of a chunk
abbrev pub single_text : List A2xPart → Option String
single_text (text s ∷ []) = some s
single_text _ = none

-- Is an event of another artifact, or a text chunk for this one?
abbrev pub is_text_chunk : String → ArtifactEvent → Bool
is_text_chunk id e =
    not (has_id id e.artifact)
    || get_or e.append false && elim (single_text e.artifact.parts) [ none ↦ false | some _ ↦ true ]

-- A text with the chunks of this artifact after it, in their order
abbrev pub streamed : String → String → List ArtifactEvent → String
streamed id s [] = s
streamed id s (e ∷ events) =
    streamed id (if has_id id e.artifact then s ⧺ get_or (single_text e.artifact.parts) "" else s)
      events

unfoldable pub append_chunks : List A2xArtifact → List ArtifactEvent → List A2xArtifact
unfolding append_artifact_chunk
append_chunks accumulated [] = accumulated
append_chunks accumulated (e ∷ events) = append_chunks (append_artifact_chunk accumulated e) events

-- The text of the only artifact of its id
abbrev HasText : String → String → List A2xArtifact → Type 0
HasText id s xs =
    (a : A2xArtifact) × (keep (has_id id) xs ≡ a ∷ [])
    × (a.artifact_id ≡ id)
    × (single_text a.parts ≡ some s)

merge_artifact_parts-single_text :
    (ps qs : List A2xPart) (s t : String)
    → single_text ps ≡ some s
    → single_text qs ≡ some t
    → single_text (merge_artifact_parts ps qs) ≡ some (s ⧺ t)
unfolding merge_artifact_parts
merge_artifact_parts-single_text (text s' ∷ []) (text t' ∷ []) s t h k = ground arith
merge_artifact_parts-single_text [] qs s t h k = cc
merge_artifact_parts-single_text (A2xPart.json _ ∷ ps) qs s t h k = cc
merge_artifact_parts-single_text (A2xPart.file _ _ _ _ ∷ ps) qs s t h k = cc
merge_artifact_parts-single_text (text s' ∷ p ∷ ps) qs s t h k = cc
merge_artifact_parts-single_text (text s' ∷ []) [] s t h k = cc
merge_artifact_parts-single_text (text s' ∷ []) (A2xPart.json _ ∷ qs) s t h k = cc
merge_artifact_parts-single_text (text s' ∷ []) (A2xPart.file _ _ _ _ ∷ qs) s t h k = cc
merge_artifact_parts-single_text (text s' ∷ []) (text t' ∷ q ∷ qs) s t h k = cc

text_chunk_cases :
    (id : String) (e : ArtifactEvent)
    → is_text_chunk id e ≡ true
    → has_id id e.artifact ≡ true
    → (get_or e.append false ≡ true)
      × (single_text e.artifact.parts ≡ some (get_or (single_text e.artifact.parts) ""))
text_chunk_cases id e h hit = ground arith

append_artifact_chunk-HasText :
    (id s : String) (xs : List A2xArtifact) (e : ArtifactEvent)
    → is_text_chunk id e ≡ true
    → HasText id s xs
    → HasText id
        (if has_id id e.artifact then s ⧺ get_or (single_text e.artifact.parts) "" else s)
        (append_artifact_chunk xs e)
unfolding append_artifact_chunk
append_artifact_chunk-HasText id s xs e h (a, only, mine, has_text) =
    elim (Bool-cases (has_id id e.artifact)) [
      | inr other ↦ rw other (elim (Bool-cases (get_or e.append false)) [
        | inl appends ↦
            rw appends (a, keep-merge_first_other id xs e.artifact other ∙ only, mine, has_text)
        | inr whole ↦ rw whole (
          a,
          keep-append id xs (e.artifact ∷ []) ∙ rw other (append-nil (keep (has_id id) xs) ∙ only),
          mine,
          has_text,
        )
      ])
      | inl hit ↦
          let chunk = text_chunk_cases id e h hit in
          let same : (a.artifact_id == e.artifact.artifact_id) ≡ true = ground (
            arith,
            ==_iff a.artifact_id e.artifact.artifact_id,
            ==_iff e.artifact.artifact_id id,
          ) in
          rw hit (
            rw chunk.0 (
              merge_chunk a e.artifact,
              keep-merge_first id xs e.artifact hit
                  ∙ ap (λ l. merge_first l e.artifact) only
                  ∙ merged a e.artifact same,
              unfold merge_chunk in mine,
              unfold merge_chunk in
                  merge_artifact_parts-single_text a.parts e.artifact.parts s _ has_text chunk.1,
            ))
    ]
  where
    merged :
        (b c : A2xArtifact)
        → (b.artifact_id == c.artifact_id) ≡ true
        → merge_first (b ∷ []) c ≡ merge_chunk b c ∷ []
    merged b c e = unfold merge_first in rw e refl

append_chunks-HasText :
    (id s : String) (xs : List A2xArtifact) (events : List ArtifactEvent)
    → forall_in (is_text_chunk id) events ≡ true
    → HasText id s xs
    → HasText id (streamed id s events) (append_chunks xs events)
unfolding append_chunks
append_chunks-HasText id s xs [] h v = v
append_chunks-HasText id s xs (e ∷ events) h v =
    let both = and_both (is_text_chunk id e) (forall_in (is_text_chunk id) events) h in
    append_chunks-HasText id
      (if has_id id e.artifact then s ⧺ get_or (single_text e.artifact.parts) "" else s)
      (append_artifact_chunk xs e) events both.1 (append_artifact_chunk-HasText id s xs e both.0 v)

-- If one artifact of an id has been started as a text, and every further event of that id appends a
-- text, then the task shows under this id that text with all the chunks in their order, whatever
-- comes for other ids and whatever the task had before.
pub artifact_map-append_chunks :
    (id s : String) (prior xs : List A2xArtifact) (events : List ArtifactEvent)
    → HasText id s xs
    → forall_in (is_text_chunk id) events ≡ true
    → (a : A2xArtifact) × (lookup id (artifact_map prior (append_chunks xs events)) ≡ some a)
      × (single_text a.parts ≡ some (streamed id s events))
unfolding artifact_map
artifact_map-append_chunks id s prior xs events v h =
    let (a, only, mine, has_text) = append_chunks-HasText id s xs events h v in
    (
      a,
      lookup-insert_artifacts id (insert_artifacts [] prior) (append_chunks xs events)
          ∙ rw only refl,
      has_text,
    )

keep-head :
    (id : String) (xs : List A2xArtifact) (a : A2xArtifact) (rest : List A2xArtifact)
    → keep (has_id id) xs ≡ a ∷ rest
    → has_id id a ≡ true
keep-head id [] a rest h = cc
keep-head id (x ∷ xs) a rest h = elim (Bool-cases (has_id id x)) [
  | inl hit ↦ ground (arith, rw hit at h)
  | inr miss ↦ keep-head id xs a rest (rw miss at h)
]

last_of-merge_first :
    (a b c : A2xArtifact) (o : Option A2xArtifact)
    → (a.artifact_id == c.artifact_id) ≡ true
    → last_of (merge_first (a ∷ b ∷ []) c) o ≡ some b
unfolding merge_first
last_of-merge_first a b c o h = rw h refl

-- If a whole artifact replaces an earlier one of its id, and a chunk is appended to it, then the
-- task shows the artifact without that chunk, which went to the replaced one.
pub artifact_map-lost_chunk :
    (id : String) (prior xs : List A2xArtifact) (a : A2xArtifact) (whole chunk : ArtifactEvent)
    → keep (has_id id) xs ≡ a ∷ []
    → has_id id whole.artifact ≡ true
    → has_id id chunk.artifact ≡ true
    → get_or whole.append false ≡ false
    → get_or chunk.append false ≡ true
    → lookup id (artifact_map prior (append_chunks xs (whole ∷ chunk ∷ []))) ≡ some whole.artifact
unfolding artifact_map append_chunks append_artifact_chunk
artifact_map-lost_chunk id prior xs a whole chunk only w c is_whole appends = rw is_whole (
    rw appends (
      lookup-insert_artifacts id (insert_artifacts [] prior)
        (merge_first (xs ++ whole.artifact ∷ []) chunk.artifact)
      ∙ ap (λ l. last_of l (lookup id (insert_artifacts [] prior))) kept
      ∙ last_of-merge_first a whole.artifact chunk.artifact (lookup id (insert_artifacts [] prior))
          same))
  where
    same : (a.artifact_id == chunk.artifact.artifact_id) ≡ true
    same = ground (
      arith,
      keep-head id xs a [] only,
      ==_iff a.artifact_id chunk.artifact.artifact_id,
      ==_iff a.artifact_id id,
      ==_iff chunk.artifact.artifact_id id,
    )

    both : keep (has_id id) (xs ++ whole.artifact ∷ []) ≡ a ∷ whole.artifact ∷ []
    both = keep-append id xs (whole.artifact ∷ []) ∙ rw w (ap (λ l. l ++ whole.artifact ∷ []) only)

    kept :
        keep (has_id id) (merge_first (xs ++ whole.artifact ∷ []) chunk.artifact)
        ≡ merge_first (a ∷ whole.artifact ∷ []) chunk.artifact
    kept =
        keep-merge_first id (xs ++ whole.artifact ∷ []) chunk.artifact c
        ∙ ap (λ l. merge_first l chunk.artifact) both
