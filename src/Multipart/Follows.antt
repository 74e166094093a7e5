-- ===== src/Multipart/Follows.antt =====
-- multipart/: what stands behind the content of a part in a message of the writer.
use mime.Base.{
  ℕ, suc, [], ◌∷◌, ◌++◌, List, true, false, Option, none, some, take, ◌≡◌, refl, ◌∙◌, append_assoc,
}
use mime.Base.Bytes.{Bytes, codes, equal, has_prefix, index_byte}
use mime.Multipart.Bufio.{buffer_size}
use mime.Multipart.Lines.{is_end, skip_lwsp_char, peek_buffer_is_empty_part}
use mime.Multipart.Search.{has_prefix-take-false, not_longer}
use mime.Multipart.PartContent.{Begun}
use mime.Multipart.MarkLines.{marks_of}
use mime.Multipart.Client.{separator}
use mime.Multipart.Writer.{Header, crlf, delimiter, end_line, header_text}
use mime.Multipart.Writer.Message.{Content, joined, parts_text}

-- the message from a part on, nested to the right
unfoldable pub opening : Bytes → Option ℕ → Bytes → Bytes
opening boundary none s = codes "--" ++ (boundary ++ (crlf ++ s))
opening boundary (some _) s = crlf ++ (codes "--" ++ (boundary ++ (crlf ++ s)))

pub parts_text_cons :
    (boundary : Bytes) (before : Option ℕ) (h : Header) (ds : List Bytes) (rest : Content)
    (e : Bytes)
    → parts_text boundary before ((h, ds) ∷ rest) ++ e
      ≡ opening boundary before
          (header_text h ++ (crlf ++ (joined ds ++ (parts_text boundary (some 0) rest ++ e))))
unfolding parts_text opening delimiter
parts_text_cons boundary none h ds rest e = simp append_assoc
parts_text_cons boundary (some i) h ds rest e = simp append_assoc

-- What follows a part: the separator, and a line that ends.
pub record Follows (boundary s : Bytes) : Type 0 where
  pub after : Bytes
  pub same : s ≡ separator boundary ++ after
  pub ends : (m : ℕ) → is_end (take (suc (suc m)) after) ≡ true

is_end-crlf : (s : Bytes) → is_end (crlf ++ s) ≡ true
unfolding is_end skip_lwsp_char has_prefix equal index_byte
is_end-crlf s = refl

is_end-dashes : (s : Bytes) → is_end (codes "--" ++ s) ≡ true
unfolding is_end skip_lwsp_char has_prefix equal
is_end-dashes s = refl

pub message-Follows :
    (boundary : Bytes) (rest : Content)
    → Follows boundary (parts_text boundary (some 0) rest ++ end_line boundary)
unfolding parts_text end_line
message-Follows boundary [] = record {
  after = codes "--" ++ crlf;
  same = refl;
  ends = λ m. is_end-dashes (take m crlf);
}
message-Follows boundary ((h, ds) ∷ rest) =
    let s =
      header_text h
      ++ (crlf ++ (joined ds ++ (parts_text boundary (some 0) rest ++ end_line boundary))) in
    record {
      after = crlf ++ s;
      same =
          parts_text_cons boundary (some 0) h ds rest (end_line boundary)
          ∙ (unfold opening in refl);
      ends = λ m. is_end-crlf (take m s);
    }

not_empty_window :
    (boundary w : Bytes)
    → has_prefix w (codes "--" ++ boundary) ≡ false
    → peek_buffer_is_empty_part (marks_of boundary) w ≡ false
unfolding peek_buffer_is_empty_part
not_empty_window boundary w h = rw (not_longer w (codes "--" ++ boundary) (codes "--") h, h) refl

-- A part whose content does not begin with the boundary is not taken for an empty one.
pub not_empty :
    (boundary s : Bytes)
    → has_prefix s (codes "--" ++ boundary) ≡ false
    → Begun 0 (marks_of boundary) s
not_empty boundary s h =
    not_empty_window boundary (take buffer_size s)
      (has_prefix-take-false buffer_size s (codes "--" ++ boundary) h)
