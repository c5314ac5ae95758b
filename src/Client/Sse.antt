-- ===== src/Client/Sse.antt =====
-- crates/flaps-client/src/sse.rs: the decoder of server-sent events. A text is the list of its characters; how bytes are read as
-- UTF-8 and a payload as JSON is a parameter.
pub mod Chunks
pub mod Frames
use Prim.Native.Char.{Char, code}
use flaps.Prelude.{
  ℕ, String, Bool, true, false, Option, none, some, List, [], ◌∷◌, ◌++◌, eqb, if◌then◌else◌,
}

pub record SseNotification : Type 0 where
  pub environment : String
  pub version : ℕ

pub record SseFormat : Type 0 where
  -- `std::str::from_utf8(..).ok()`
  pub from_utf8 : List ℕ → Option (List Char)
  -- `serde_json::from_str::<EventPayload>(..).ok()`
  pub payload : List Char → Option SseNotification

pub record SseDecoder : Type 0 where
  pub line_buf : List Char
  pub data_buf : Option (List Char)

unfoldable pub new : SseDecoder
new = record { line_buf = []; data_buf = none }

abbrev pub is_newline : Char → Bool
is_newline c = eqb (code c) 10

unfoldable pub add_to_first : Char → List (List Char) → List Char → List (List Char) × List Char
add_to_first c [] last = ([], c ∷ last)
add_to_first c (line ∷ lines) last = ((c ∷ line) ∷ lines, last)

-- `split('\n')`: the complete segments, and the one that no newline ends.
unfoldable pub split_newlines : List Char → List (List Char) × List Char
unfolding add_to_first
split_newlines [] = ([], [])
split_newlines (c ∷ text) =
    let (lines, last) = split_newlines text in
    if is_newline c then ([] ∷ lines, last) else add_to_first c lines last

-- `trim_end_matches('\r')`
unfoldable pub trim_returns : List Char → List Char
trim_returns [] = []
trim_returns (c ∷ line) = elim (trim_returns line) [
  | [] ↦ if eqb (code c) 13 then [] else c ∷ []
  | d ∷ rest ↦ c ∷ d ∷ rest
]

unfoldable pub strip_prefix : List Char → List Char → Option (List Char)
strip_prefix [] line = some line
strip_prefix (p ∷ prefix) [] = none
strip_prefix (p ∷ prefix) (c ∷ line) =
    let rest = strip_prefix prefix line in if eqb (code p) (code c) then rest else none

unfoldable pub or_whole : List Char → Option (List Char) → List Char
or_whole line none = line
or_whole line (some rest) = rest

abbrev pub data_prefix : List Char
data_prefix = "d" ∷ "a" ∷ "t" ∷ "a" ∷ ":" ∷ []

unfoldable pub one_if_some : Option SseNotification → List SseNotification
one_if_some none = []
one_if_some (some notification) = notification ∷ []

module _ (format : SseFormat) where
  unfoldable pub event_of : Option (List Char) → List SseNotification
  unfolding one_if_some
  event_of none = []
  event_of (some text) = one_if_some (format.payload text)

  unfoldable pub with_data : Option (List Char) → SseDecoder → SseDecoder
  unfolding strip_prefix or_whole
  with_data none d = d
  with_data (some value) d = record d {
    data_buf = some (or_whole value (strip_prefix (" " ∷ []) value));
  }

  -- A blank line ends an event; the last `data:` line before it is its payload.
  unfoldable pub dispatch_line : List Char → SseDecoder → List SseNotification × SseDecoder
  unfolding event_of with_data strip_prefix
  dispatch_line [] d = (event_of d.data_buf, record d { data_buf = none })
  dispatch_line (c ∷ line) d = ([], with_data (strip_prefix data_prefix (c ∷ line)) d)

  -- The loop over the complete segments: the carried line is taken, completed and dispatched.
  unfoldable pub dispatch_lines : List (List Char) → SseDecoder → List SseNotification × SseDecoder
  unfolding dispatch_line trim_returns
  dispatch_lines [] d = ([], d)
  dispatch_lines (line ∷ lines) d =
      let (first, next) =
        dispatch_line (trim_returns (d.line_buf ++ line)) (record d { line_buf = [] }) in
      let (more, last) = dispatch_lines lines next in (first ++ more, last)

  unfoldable pub push_text : List Char → SseDecoder → List SseNotification × SseDecoder
  unfolding dispatch_lines split_newlines
  push_text text d =
      let (lines, tail) = split_newlines text in
      let (notifications, last) = dispatch_lines lines d in
      (notifications, record last { line_buf = last.line_buf ++ tail })

  unfoldable pub push_decoded : Option (List Char) → SseDecoder → List SseNotification × SseDecoder
  unfolding push_text
  push_decoded none d = ([], d)
  push_decoded (some text) d = push_text text d

  unfoldable pub push : List ℕ → SseDecoder → List SseNotification × SseDecoder
  unfolding push_decoded
  push chunk d = push_decoded (format.from_utf8 chunk) d

  unfoldable pub flush : SseDecoder → List SseNotification × SseDecoder
  flush d = ([], record { line_buf = []; data_buf = none })
