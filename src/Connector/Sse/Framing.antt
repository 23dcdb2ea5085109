-- ===== src/Connector/Sse/Framing.antt =====
-- internal/connector/sse.go: the events that the lines of a stream make.
use nephtys.Prelude.{
  ◌≡◌, refl, ap, ◌∙◌, true, false, Option, none, some, List, [], ◌∷◌, ◌++◌, is_empty, both-branches,
  if◌then◌else◌, All, map,
}
use nephtys.Domain.Event.{Bytes}
use nephtys.Connector.Sse.{
  Codec, Published, Reader, new_reader, after_prefix, event_prefix, data_prefix, sse_message,
  drop_space, append_data, end_event, take_field, take_data, read_line, read_loop,
}

-- A line of data as a server writes it, and the data lines joined as the specification has it.
unfoldable pub data_line : Bytes → Bytes
data_line content = b'd' ∷ b'a' ∷ b't' ∷ b'a' ∷ b':' ∷ b' ' ∷ content

unfoldable pub joined : Bytes → List Bytes → Bytes
joined first [] = first
joined first (content ∷ rest) = joined (first ++ b'\n' ∷ content) rest

read-data_line :
    (codec : Codec) (content : Bytes) (r : Reader)
    → read_line codec (data_line content) r
      ≡ record r { current_data = append_data r.current_data content }
unfolding read_line data_line after_prefix drop_space
read-data_line codec content r = refl

not_empty-append : (xs ys : Bytes) → is_empty xs ≡ false → is_empty (xs ++ ys) ≡ false
not_empty-append [] ys e = cc
not_empty-append (x ∷ xs) ys e = refl

append_data-filled :
    (before content : Bytes)
    → is_empty before ≡ false
    → append_data before content ≡ before ++ b'\n' ∷ content
unfolding append_data
append_data-filled [] content e = cc
append_data-filled (b ∷ before) content e = refl

-- Data lines after the first.
read-data_lines :
    (codec : Codec) (contents : List Bytes) (after : List Bytes) (r : Reader)
    → is_empty r.current_data ≡ false
    → read_loop codec (map data_line contents ++ after) r
      ≡ read_loop codec after (record r { current_data = joined r.current_data contents })
unfolding read_loop joined append_data
read-data_lines codec [] after r e = refl
read-data_lines codec (content ∷ contents) after r e =
    let more : Reader = record r { current_data = r.current_data ++ b'\n' ∷ content } in
    let same : read_line codec (data_line content) r ≡ more =
      read-data_line codec content r
      ∙ ap (λ d. record r { current_data = d }) (append_data-filled r.current_data content e) in
    ap (read_loop codec (map data_line contents ++ after)) same
    ∙ read-data_lines codec contents after more
        (not_empty-append r.current_data (b'\n' ∷ content) e)

joined_not_empty :
    (first : Bytes) (contents : List Bytes)
    → is_empty first ≡ false
    → is_empty (joined first contents) ≡ false
unfolding joined
joined_not_empty first [] e = e
joined_not_empty first (content ∷ contents) e =
    joined_not_empty (first ++ b'\n' ∷ content) contents
      (not_empty-append first (b'\n' ∷ content) e)

-- The event that the reader makes of this data.
abbrev pub published_as : Codec → Bytes → Bytes → Published
published_as codec name content = record {
  type = if is_empty name then sse_message else name;
  payload = if codec.valid content then content else codec.wrap content;
}

end_event-filled :
    (codec : Codec) (r : Reader)
    → is_empty r.current_data ≡ false
    → end_event codec r ≡ record {
      current_event = [];
      current_data = [];
      published = r.published ++ published_as codec r.current_event r.current_data ∷ [];
    }
unfolding end_event
end_event-filled codec r e =
    both-branches
      (λ x. x ≡ record {
        current_event = [];
        current_data = [];
        published = r.published ++ published_as codec r.current_event r.current_data ∷ [];
      })
      (is_empty r.current_data) (λ f. cc) (λ _. refl)

-- A reader with no data that reads data lines, the first of them not empty, and then an empty line
-- publishes one event: its payload is the lines joined by newlines, wrapped if that is not JSON, its
-- type the name that was read before, or the default. The reader then holds neither name nor data.
pub block_published :
    (codec : Codec) (name first : Bytes) (contents : List Bytes) (sent : List Published)
    → is_empty first ≡ false
    → read_loop codec
        (data_line first ∷ (map data_line contents ++ [] ∷ []))
        (record { current_event = name; current_data = []; published = sent })
      ≡ record {
        current_event = [];
        current_data = [];
        published = sent ++ published_as codec name (joined first contents) ∷ [];
      }
unfolding read_loop read_line append_data
block_published codec name first contents sent e =
    let begun : Reader = record { current_event = name; current_data = first; published = sent } in
    let full : Reader = record begun { current_data = joined first contents } in
    ap (read_loop codec (map data_line contents ++ [] ∷ []))
      (read-data_line codec first (record begun { current_data = [] }))
    ∙ read-data_lines codec contents ([] ∷ []) begun e
    ∙ end_event-filled codec full (joined_not_empty first contents e)

All-append :
    (P : Published → Type 0) (xs : List Published) (y : Published)
    → All P xs
    → P y
    → All P (xs ++ y ∷ [])
All-append P [] y a p = (p, tt)
All-append P (x ∷ xs) y (q, a) p = (q, All-append P xs y a p)

module _ (codec : Codec) (wraps : (b : Bytes) → codec.valid (codec.wrap b) ≡ true) where
  abbrev AllValid : Reader → Type 0
  AllValid r = All (λ p. codec.valid p.payload ≡ true) r.published

  end_event-AllValid : (r : Reader) → AllValid r → AllValid (end_event codec r)
  unfolding end_event
  end_event-AllValid r a =
      both-branches AllValid (is_empty r.current_data) (λ _. a)
        (λ _.
          All-append (λ p. codec.valid p.payload ≡ true) r.published _ a
            (both-branches (λ b. codec.valid b ≡ true) (codec.valid r.current_data) (λ e. e)
              (λ _. wraps r.current_data)))

  take_data-AllValid : (o : Option Bytes) (r : Reader) → AllValid r → AllValid (take_data o r)
  take_data-AllValid none r a = a
  take_data-AllValid (some content) r a = a

  take_field-AllValid :
      (o : Option Bytes) (line : Bytes) (r : Reader)
      → AllValid r
      → AllValid (take_field codec o line r)
  take_field-AllValid none line r a = take_data-AllValid (after_prefix data_prefix line) r a
  take_field-AllValid (some name) line r a = a

  read_line-AllValid : (line : Bytes) (r : Reader) → AllValid r → AllValid (read_line codec line r)
  unfolding read_line
  read_line-AllValid line r a =
      both-branches AllValid (is_empty line) (λ _. end_event-AllValid r a)
        (λ _. take_field-AllValid (after_prefix event_prefix line) line r a)

  read_loop-AllValid :
      (lines : List Bytes) (r : Reader) → AllValid r → AllValid (read_loop codec lines r)
  unfolding read_loop
  read_loop-AllValid [] r a = a
  read_loop-AllValid (line ∷ lines) r a =
      read_loop-AllValid lines (read_line codec line r) (read_line-AllValid line r a)

  -- If the wrapped form of any text is JSON, every payload that a reader publishes of any lines is.
  pub payloads_valid :
      (lines : List Bytes)
      → All (λ p. codec.valid p.payload ≡ true) (read_loop codec lines new_reader).published
  payloads_valid lines = read_loop-AllValid lines new_reader tt
