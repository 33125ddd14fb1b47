-- ===== src/Pagination.antt =====
-- The cursors of backend/src/marketmind/pagination.py. Texts and bytes are lists of their codes; the
-- libraries for base64, JSON, times and identifiers are parameters.
use market_mind.Prelude.{
  ℕ, zero, suc, ◌+◌, ◌-◌, ◌%◌, ◌<◌, ◌==◌, ◌≡◌, refl, ap, sym, ◌∙◌, Bool, true, false, ◌&&◌, Option,
  none, some, List, [], ◌∷◌, ◌++◌, arith, if◌then◌else◌, is_some, length, eqb_refl,
}
use market_mind.Replies.{Reply, raised, answer}

abbrev pub Text : Type 0
Text = List ℕ

abbrev pub same_text : Text → Text → Bool
same_text [] [] = true
same_text (a ∷ as_) (b ∷ bs) = a == b && same_text as_ bs
same_text _ _ = false

-- a point in time, and the offset of its zone if it has one
pub record Timestamp : Type 0 where
  pub at : ℕ
  pub zone : Option ℕ

-- The object of a cursor, with exactly these keys.
pub record Payload : Type 0 where
  pub version : ℕ
  pub scope : Text
  pub timestamp : Text
  pub identifier : Text

-- the padding character
abbrev pub pad : ℕ
pad = 61

abbrev pub pads : ℕ → Text
pads zero = []
pads (suc n) = pad ∷ pads n

abbrev pub has_pad : Text → Bool
has_pad [] = false
has_pad (c ∷ cs) = if c == pad then true else has_pad cs

-- What is relied on of base64: groups of four characters, of which padding ends the last.
pub record Base64 : Type 0 where
  pub encode : List ℕ → Text
  pub decode : Text → Option (List ℕ)
  pub body : List ℕ → Text
  pub padding : List ℕ → ℕ
  pub encode-body : (b : List ℕ) → encode b ≡ body b ++ pads (padding b)
  pub body-pad : (b : List ℕ) → has_pad (body b) ≡ false
  pub padding_le : (b : List ℕ) → padding b < 4
  pub whole : (b : List ℕ) → (length (body b) + padding b) % 4 ≡ 0
  pub decode-encode : (b : List ℕ) → decode (encode b) ≡ some b

-- What is relied on of JSON, of ISO times and of the text of an identifier; `none` where they raise.
pub record Formats : Type 0 where
  pub dumps : Payload → List ℕ
  pub loads : List ℕ → Option Payload
  pub isoformat : Timestamp → Text
  pub fromisoformat : Text → Option Timestamp
  pub show_uuid : ℕ → Text
  pub read_uuid : Text → Option ℕ
  pub loads-dumps : (p : Payload) → loads (dumps p) ≡ some p
  pub fromisoformat-isoformat : (t : Timestamp) → fromisoformat (isoformat t) ≡ some t
  pub read_uuid-show_uuid : (k : ℕ) → read_uuid (show_uuid k) ≡ some k

-- `rstrip(b"=")`
abbrev pub rstrip : Text → Text
rstrip [] = []
rstrip (c ∷ cs) = keep c (rstrip cs)
  where
    keep : ℕ → Text → Text
    keep x [] = if x == pad then [] else x ∷ []
    keep x (y ∷ ys) = x ∷ y ∷ ys

-- `"=" * (-len(cursor) % 4)`
abbrev pub missing : Text → ℕ
missing cursor = (4 - length cursor % 4) % 4

pub data CursorError : Type 0 where
  invalid_cursor : CursorError

module _ (base64 : Base64) (formats : Formats) where
  unfoldable pub encode_cursor : Text → Timestamp → ℕ → Text
  encode_cursor scope t k = rstrip (
      base64.encode (
        formats.dumps (record {
          version = 1;
          scope = scope;
          timestamp = formats.isoformat t;
          identifier = formats.show_uuid k;
        })))

  -- a time with a zone, and an identifier
  abbrev pub read_position : Option Timestamp → Option ℕ → Reply CursorError (Timestamp × ℕ)
  read_position (some t) (some k) = if is_some t.zone then answer (t, k) else raised invalid_cursor
  read_position _ _ = raised invalid_cursor

  abbrev pub read_payload : Text → Option Payload → Reply CursorError (Timestamp × ℕ)
  read_payload scope none = raised invalid_cursor
  read_payload scope (some p) =
      if p.version == 1 && same_text p.scope scope
      then read_position (formats.fromisoformat p.timestamp) (formats.read_uuid p.identifier)
      else raised invalid_cursor

  abbrev pub load : Option (List ℕ) → Option Payload
  load none = none
  load (some raw) = formats.loads raw

  unfoldable pub decode_cursor : Text → Text → Reply CursorError (Timestamp × ℕ)
  decode_cursor cursor scope =
      read_payload scope (load (base64.decode (cursor ++ pads (missing cursor))))

rstrip-pads : (n : ℕ) → rstrip (pads n) ≡ []
rstrip-pads zero = refl
rstrip-pads (suc n) = rw (rstrip-pads n) refl

keep_first : (x : ℕ) (ys : Text) → (x == pad) ≡ false → rstrip (x ∷ ys) ≡ x ∷ rstrip ys
keep_first x ys other = go (rstrip ys) refl
  where
    go : (zs : Text) → rstrip ys ≡ zs → rstrip (x ∷ ys) ≡ x ∷ rstrip ys
    go [] e = ground (arith, e, other)
    go (z ∷ zs) e = ground (arith, e)

-- what is stripped is the padding
rstrip-append : (xs : Text) (n : ℕ) → has_pad xs ≡ false → rstrip (xs ++ pads n) ≡ xs
rstrip-append [] n none_in = rstrip-pads n
rstrip-append (x ∷ xs) n none_in =
    keep_first x (xs ++ pads n) (ground (arith, none_in))
    ∙ ap (λ ys. x ∷ ys) (rstrip-append xs n (ground (arith, none_in)))

-- and it is what is added again
missing-body : (base64 : Base64) (b : List ℕ) → missing (base64.body b) ≡ base64.padding b
missing-body base64 b = omega (arith, base64.padding_le b, base64.whole b)

same_text_refl : (s : Text) → same_text s s ≡ true
same_text_refl [] = refl
same_text_refl (c ∷ cs) = rw (eqb_refl c) (same_text_refl cs)

module _ (base64 : Base64) (formats : Formats) (scope : Text) (t : Timestamp) (k : ℕ) where
  abbrev cursor_payload : Payload
  cursor_payload = record {
    version = 1;
    scope = scope;
    timestamp = formats.isoformat t;
    identifier = formats.show_uuid k;
  }

  abbrev cursor_bytes : List ℕ
  cursor_bytes = formats.dumps cursor_payload

  -- the padded text of a cursor is what base64 made
  padded :
      encode_cursor base64 formats scope t k
        ++ pads (missing (encode_cursor base64 formats scope t k))
      ≡ base64.encode cursor_bytes
  unfolding encode_cursor
  padded =
      let stripped : encode_cursor base64 formats scope t k ≡ base64.body cursor_bytes =
        ap rstrip (base64.encode-body cursor_bytes)
        ∙ rstrip-append (base64.body cursor_bytes) (base64.padding cursor_bytes)
            (base64.body-pad cursor_bytes) in
      ap (λ s. s ++ pads (missing s)) stripped
      ∙ ap (λ n. base64.body cursor_bytes ++ pads n) (missing-body base64 cursor_bytes)
      ∙ sym (base64.encode-body cursor_bytes)

  accepted :
      (other : Text)
      → is_some t.zone ≡ true
      → read_payload base64 formats other (some cursor_payload)
        ≡ (if same_text scope other then answer (t, k) else raised invalid_cursor)
  accepted other zoned =
      let time = formats.fromisoformat-isoformat t in
      let identifier = formats.read_uuid-show_uuid k in rw (time, identifier, zoned) refl

  -- Where base64, JSON, ISO times and identifiers can be read back: the cursor of a time with a zone is read
  -- back as that time and identifier within its own scope, and is refused in any other.
  pub decode_cursor-encode_cursor :
      (other : Text)
      → is_some t.zone ≡ true
      → decode_cursor base64 formats (encode_cursor base64 formats scope t k) other
        ≡ (if same_text scope other then answer (t, k) else raised invalid_cursor)
  unfolding decode_cursor
  decode_cursor-encode_cursor other zoned =
      let read : load base64 formats (base64.decode (base64.encode cursor_bytes))
          ≡ some cursor_payload =
        ap (load base64 formats) (base64.decode-encode cursor_bytes)
        ∙ formats.loads-dumps cursor_payload in
      ap (λ s. read_payload base64 formats other (load base64 formats (base64.decode s))) padded
      ∙ ap (read_payload base64 formats other) read
      ∙ accepted other zoned
