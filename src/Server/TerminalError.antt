-- ===== src/Server/TerminalError.antt =====
-- packages/server/src/terminal-error.ts: the machine-readable error that a terminal message carries
-- for callers that asked for the openai-compat extension.
use vicoop_bridge.Prelude.{
  String, Bool, false, Option, none, some, List, [], ◌∷◌, string_eq, if◌then◌else◌, includes,
}
use vicoop_bridge.Protocol.{Json, object, empty, field, openai_compat_extension_uri}

has_openai_compat_extension : Option (List String) → Bool
has_openai_compat_extension none = false
has_openai_compat_extension (some extensions) = includes extensions openai_compat_extension_uri

terminal_error_metadata : (code message : String) → Json
terminal_error_metadata code message = object (
    field openai_compat_extension_uri (object (field "terminal_error" error empty))
      (field "error" error empty))
  where
    error : Json
    error = object (field "code" (Json.text code) (field "message" (Json.text message) empty))

-- The two fields of `terminalErrorMessageFields`.
unfoldable pub error_metadata : (code message : String) → Option (List String) → Option Json
unfolding has_openai_compat_extension terminal_error_metadata
error_metadata code message requested =
    if has_openai_compat_extension requested
    then some (terminal_error_metadata code message)
    else none

unfoldable pub error_extensions : Option (List String) → Option (List String)
unfolding has_openai_compat_extension
error_extensions requested =
    if has_openai_compat_extension requested then some (openai_compat_extension_uri ∷ []) else none
