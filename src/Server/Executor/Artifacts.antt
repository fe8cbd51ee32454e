-- ===== src/Server/Executor/Artifacts.antt =====
-- The history and the artifacts of a task in packages/server/src/executor.ts.
--
-- An artifact that `appendArtifactChunk` changes is one object in the list and in the task's map; the
-- map is built anew after every chunk, so that a copy serves.
pub mod Chunks
use vicoop_bridge.Prelude.{
  ◌≡◌, refl, sym, String, Bool, true, false, not, ◌==◌, string_eq, option_eq, Option, none, some,
  List, [], ◌∷◌, ◌++◌, ◌⧺◌, Dict, if◌then◌else◌, get_or, exists, lookup, insert, values,
  lookup-insert, arith, ==_iff, ==_self,
}
use vicoop_bridge.Protocol.{A2xPart, text, A2xMessage, A2xArtifact}
use vicoop_bridge.Server.State.{ArtifactEvent}

unfoldable pub append_history_message : List A2xMessage → Option A2xMessage → List A2xMessage
append_history_message history none = history
append_history_message history (some message) =
    if exists (λ m. m.message_id == message.message_id) history
    then history
    else history ++ message ∷ []

-- Two single texts become one.
unfoldable pub merge_artifact_parts : (existing chunk : List A2xPart) → List A2xPart
merge_artifact_parts (text s ∷ []) (text t ∷ []) = text (s ⧺ t) ∷ []
merge_artifact_parts existing chunk = existing ++ chunk

-- `value ?? old`
abbrev pub newer {ℓ} : {A : Type ℓ} → Option A → Option A → Option A
newer none old = old
newer (some value) old = some value

unfoldable pub merge_chunk : A2xArtifact → A2xArtifact → A2xArtifact
unfolding merge_artifact_parts
merge_chunk existing chunk = record existing {
  parts = merge_artifact_parts existing.parts chunk.parts;
  name = newer chunk.name existing.name;
  metadata = newer chunk.metadata existing.metadata;
  extensions = newer chunk.extensions existing.extensions;
}

-- Merge into the first artifact of that id, or add the chunk.
unfoldable pub merge_first : List A2xArtifact → A2xArtifact → List A2xArtifact
unfolding merge_chunk
merge_first [] chunk = chunk ∷ []
merge_first (a ∷ rest) chunk =
    let later = merge_first rest chunk in
    if a.artifact_id == chunk.artifact_id then merge_chunk a chunk ∷ rest else a ∷ later

unfoldable pub append_artifact_chunk : List A2xArtifact → ArtifactEvent → List A2xArtifact
unfolding merge_first
append_artifact_chunk accumulated event =
    if get_or event.append false
    then merge_first accumulated event.artifact
    else accumulated ++ event.artifact ∷ []

-- A `Map` by artifact id: a later artifact takes an earlier one's place.
unfoldable pub insert_artifacts :
    Dict String A2xArtifact → List A2xArtifact → Dict String A2xArtifact
unfolding insert
insert_artifacts merged [] = merged
insert_artifacts merged (a ∷ rest) = insert_artifacts (insert a.artifact_id a merged) rest

unfoldable pub artifact_map : (prior current : List A2xArtifact) → Dict String A2xArtifact
unfolding insert_artifacts
artifact_map prior current = insert_artifacts (insert_artifacts [] prior) current

unfoldable pub task_artifacts : (prior current : List A2xArtifact) → List A2xArtifact
unfolding artifact_map values
task_artifacts prior current = values (artifact_map prior current)
