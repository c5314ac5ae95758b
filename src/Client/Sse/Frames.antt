-- ===== src/Client/Sse/Frames.antt =====
-- The frame that the server's stream makes of a payload, decoded.
use Prim.Native.Char.{Char, code}
use flaps.Prelude.{◌≡◌, refl, sym, ap, ◌∙◌, false, Option, some, List, [], ◌∷◌, ◌++◌, eqb, All}
use mathlib.Core.List.{append-nil, append_assoc}
use flaps.Client.Sse.{
  SseNotification, SseFormat, SseDecoder, is_newline, trim_returns, strip_prefix, dispatch_line,
  data_prefix, push_text, event_of, with_data, one_if_some, or_whole, new,
}
use flaps.Client.Sse.Chunks.{feed, push_text-feed}

-- A character that ends no line and is not stripped from one.
abbrev pub Inline : Char → Type 0
Inline c = (is_newline c ≡ false) × (eqb (code c) 13 ≡ false)

trim_returns-Inline : (line : List Char) → All Inline line → trim_returns line ≡ line
unfolding trim_returns
trim_returns-Inline [] inline = refl
trim_returns-Inline (c ∷ []) ((ends, returns), rest) = rw returns refl
trim_returns-Inline (c ∷ d ∷ line) (here, rest) =
    rw (trim_returns, trim_returns-Inline (d ∷ line) rest) refl

-- `data: `, the payload, and a blank line.
abbrev pub frame : List Char → List Char
frame json = data_prefix ++ (" " ∷ (json ++ ("\n" ∷ "\n" ∷ [])))

module _ (format : SseFormat) where
  feed-Inline :
      (line rest : List Char) (d : SseDecoder)
      → All Inline line
      → feed format (line ++ rest) d ≡ feed format rest (record d { line_buf = d.line_buf ++ line })
  unfolding feed
  feed-Inline [] rest d inline =
      ap (λ x. feed format rest (record d { line_buf = x })) (sym (append-nil d.line_buf))
  feed-Inline (c ∷ line) rest d ((ends, returns), inline) = rw ends (
      feed-Inline line rest (record d { line_buf = d.line_buf ++ (c ∷ []) }) inline
      ∙ ap (λ x. feed format rest (record d { line_buf = x }))
          (append_assoc d.line_buf (c ∷ []) line))

  -- A frame that arrives where no line is open gives exactly the notification of its payload and leaves a fresh decoder, where
  -- the payload is read as JSON and has no line feed and no carriage return in it.
  pub push_text-frame :
      (json : List Char) (notification : SseNotification) (old : Option (List Char))
      → All Inline json
      → format.payload json ≡ some notification
      → push_text format (frame json) (record { line_buf = []; data_buf = old })
        ≡ (notification ∷ [], new)
  unfolding feed new dispatch_line with_data strip_prefix or_whole event_of one_if_some
  push_text-frame json notification old inline reads =
      push_text-feed format (frame json) (record { line_buf = []; data_buf = old })
      ∙ feed-Inline (data_prefix ++ (" " ∷ json)) ("\n" ∷ "\n" ∷ [])
          (record { line_buf = []; data_buf = old }) whole
      ∙ rw
          (
            trim_returns-Inline (data_prefix ++ (" " ∷ json)) whole,
            trim_returns-Inline [] tt,
            reads,
          )
          refl
    where
      whole : All Inline (data_prefix ++ (" " ∷ json))
      whole = (
        (refl, refl),
        ((refl, refl), ((refl, refl), ((refl, refl), ((refl, refl), ((refl, refl), inline))))),
      )
