-- ===== src/Adapter/Chunks.antt =====
-- internal/model/openaicompat/adapter.go: the lines of the response and what they decode to.
use Prim.Native.Char.{code}
use reliable_agent_runtime.Prelude.{
  Bool, List, Option, String, eqb, false, if◌then◌else◌, none, some, true, ℤ, ◌==◌, ◌||◌,
}
use reliable_agent_runtime.Http.Text.{trim_space}

pub record ToolDelta : Type 0 where
  pub index : ℤ
  pub id : String
  pub name : String
  pub arguments : String

pub record Choice : Type 0 where
  pub content : String
  pub tool_deltas : List ToolDelta
  pub finish_reason : String

pub record StreamChunk : Type 0 where
  pub choices : List Choice
  pub token_counts : Option (ℤ × ℤ)

-- strings.HasPrefix and strings.TrimPrefix: what follows the prefix, if the text has it.
unfoldable pub after_prefix : String → String → Option String
after_prefix String.[] s = some s
after_prefix (String.◌∷◌ c prefix) String.[] = none
after_prefix (String.◌∷◌ c prefix) (String.◌∷◌ d s) =
    let rest = after_prefix prefix s in if eqb (code c) (code d) then rest else none

abbrev pub has_value : Option String → Bool
has_value none = false
has_value (some s) = true

-- What the loop does with a line: pass over it, stop, or decode it.
pub data LineKind : Type 0 where
  skipped done_marker : LineKind
  payload_line : String → LineKind

unfoldable pub line_kind : String → LineKind
unfolding after_prefix
line_kind scanned =
    let line = trim_space scanned in
    if line == "" || has_value (after_prefix ":" line)
    then skipped
    else elim (after_prefix "data:" line) [
      | none ↦ skipped
      | some rest ↦
          if trim_space rest == "[DONE]" then done_marker else payload_line (trim_space rest)
    ]
