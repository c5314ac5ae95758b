-- ===== src/Client/Sse/Chunks.antt =====
-- The decoder gives the same whatever the chunks are in which a text arrives.
use Prim.Native.Char.{Char}
use flaps.Prelude.{
  ℕ, ◌≡◌, refl, sym, ap, ◌∙◌, some, List, [], ◌∷◌, ◌++◌, Bool-cases, inl, inr, if◌then◌else◌,
}
use mathlib.Core.List.{append-nil, append_assoc}
use flaps.Client.Sse.{
  SseNotification, SseFormat, SseDecoder, is_newline, split_newlines, add_to_first, trim_returns,
  dispatch_line, dispatch_lines, push_text, push, push_decoded,
}

-- One result and then that of what follows.
abbrev pub after :
    List SseNotification → List SseNotification × SseDecoder → List SseNotification × SseDecoder
after first result = (first ++ result.0, result.1)

module _ (format : SseFormat) where
  -- The decoder a character at a time.
  unfoldable pub feed : List Char → SseDecoder → List SseNotification × SseDecoder
  feed [] d = ([], d)
  feed (c ∷ text) d =
      let (first, next) =
        dispatch_line format (trim_returns d.line_buf) (record d { line_buf = [] }) in
      let ended = feed text next in
      let carried = feed text (record d { line_buf = d.line_buf ++ (c ∷ []) }) in
      if is_newline c then after first ended else carried

  feed-append :
      (a b : List Char) (d : SseDecoder)
      → feed (a ++ b) d ≡ after (feed a d).0 (feed b (feed a d).1)
  unfolding feed
  feed-append [] b d = refl
  feed-append (c ∷ a) b d = elim (Bool-cases (is_newline c)) [
    | inl ends ↦
        let next =
          (dispatch_line format (trim_returns d.line_buf) (record d { line_buf = [] })).1 in
        let first =
          (dispatch_line format (trim_returns d.line_buf) (record d { line_buf = [] })).0 in
        rw ends (
          ap (after first) (feed-append a b next)
          ∙ ap (λ x. (x, (feed b (feed a next).1).1))
              (sym (append_assoc first (feed a next).0 (feed b (feed a next).1).0)))
    | inr stays ↦ rw stays (feed-append a b (record d { line_buf = d.line_buf ++ (c ∷ []) }))
  ]

  -- What `push` does with a text that is split.
  finish : List (List Char) → List Char → SseDecoder → List SseNotification × SseDecoder
  finish lines tail d =
      let (notifications, last) = dispatch_lines format lines d in
      (notifications, record last { line_buf = last.line_buf ++ tail })

  finish-add_to_first :
      (c : Char) (lines : List (List Char)) (tail : List Char) (d : SseDecoder)
      → finish (add_to_first c lines tail).0 (add_to_first c lines tail).1 d
        ≡ finish lines tail (record d { line_buf = d.line_buf ++ (c ∷ []) })
  unfolding finish add_to_first dispatch_lines
  finish-add_to_first c [] tail d =
      ap (λ x. ([], record d { line_buf = x })) (sym (append_assoc d.line_buf (c ∷ []) tail))
  finish-add_to_first c (line ∷ lines) tail d = rw (append_assoc d.line_buf (c ∷ []) line) refl

  finish_line :
      (lines : List (List Char)) (tail : List Char) (d : SseDecoder)
      → finish ([] ∷ lines) tail d
        ≡ after (dispatch_line format (trim_returns d.line_buf) (record d { line_buf = [] })).0 (
            finish lines tail
              (dispatch_line format (trim_returns d.line_buf) (record d { line_buf = [] })).1)
  unfolding finish dispatch_lines
  finish_line lines tail d =
      ap
        (λ line. after (dispatch_line format (trim_returns line) (record d { line_buf = [] })).0 (
          finish lines tail
            (dispatch_line format (trim_returns line) (record d { line_buf = [] })).1))
        (append-nil d.line_buf)

  -- A text pushed as a chunk gives what it gives a character at a time.
  pub push_text-feed : (text : List Char) (d : SseDecoder) → push_text format text d ≡ feed text d
  unfolding push_text feed dispatch_lines split_newlines finish
  push_text-feed [] d = ap (λ x. ([], record d { line_buf = x })) (append-nil d.line_buf)
  push_text-feed (c ∷ text) d = elim (Bool-cases (is_newline c)) [
    | inl ends ↦
        let first =
          (dispatch_line format (trim_returns d.line_buf) (record d { line_buf = [] })).0 in
        let next =
          (dispatch_line format (trim_returns d.line_buf) (record d { line_buf = [] })).1 in
        rw ends (
          finish_line (split_newlines text).0 (split_newlines text).1 d
          ∙ ap (after first) (push_text-feed text next))
    | inr stays ↦ rw stays (
        finish-add_to_first c (split_newlines text).0 (split_newlines text).1 d
        ∙ push_text-feed text (record d { line_buf = d.line_buf ++ (c ∷ []) }))
  ]

  push_text-append :
      (a b : List Char) (d : SseDecoder)
      → push_text format (a ++ b) d
        ≡ after (push_text format a d).0 (push_text format b (push_text format a d).1)
  push_text-append a b d =
      push_text-feed (a ++ b) d
      ∙ feed-append a b d
      ∙ sym (ap (λ r. after r.0 (feed b r.1)) (push_text-feed a d))
      ∙ ap (after (push_text format a d).0) (sym (push_text-feed b (push_text format a d).1))

  -- The chunks in which a text arrives make no difference: pushing two chunks that are UTF-8 one after the other notifies and
  -- leaves the decoder as pushing them as one chunk does, where that is UTF-8 of the two texts in a row.
  pub push-append :
      (x y : List ℕ) (a b : List Char) (d : SseDecoder)
      → format.from_utf8 x ≡ some a
      → format.from_utf8 y ≡ some b
      → format.from_utf8 (x ++ y) ≡ some (a ++ b)
      → push format (x ++ y) d ≡ after (push format x d).0 (push format y (push format x d).1)
  unfolding push push_decoded
  push-append x y a b d ex ey exy = rw (exy, ex, ey) (push_text-append a b d)
