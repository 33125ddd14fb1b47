-- ===== src/Examples/Pagination.antt =====
-- Simple formats at which a cursor is written and read.
use market_mind.Prelude.{
  ℕ, zero, suc, ◌+◌, ◌-◌, ◌%◌, ◌==◌, ◌≡◌, refl, ap, false, Option, none, some, List, [], ◌∷◌, ◌++◌,
  map, arith, if◌then◌else◌, length, Option-cases, inl, inr,
}
use market_mind.Replies.{raised, answer}
use market_mind.Pagination.{
  Text, Timestamp, Payload, Base64, Formats, invalid_cursor, pads, has_pad, same_text,
  encode_cursor, decode_cursor, decode_cursor-encode_cursor,
}

abbrev shifted : List ℕ → Text
shifted = map (λ x. x + 62)

abbrev fill : List ℕ → ℕ
fill b = (4 - length b % 4) % 4

abbrev unshift : Text → List ℕ
unshift [] = []
unshift (c ∷ cs) = if c == 61 then [] else (c - 62) ∷ unshift cs

unshift-pads : (n : ℕ) → unshift (pads n) ≡ []
unshift-pads zero = refl
unshift-pads (suc n) = refl

unshift-shifted : (b : List ℕ) (n : ℕ) → unshift (shifted b ++ pads n) ≡ b
unshift-shifted [] n = unshift-pads n
unshift-shifted (x ∷ xs) n = ground (arith, unshift-shifted xs n)

shifted-has_pad : (b : List ℕ) → has_pad (shifted b) ≡ false
shifted-has_pad [] = refl
shifted-has_pad (x ∷ xs) = ground (arith, shifted-has_pad xs)

length-shifted : (b : List ℕ) → length (shifted b) ≡ length b
length-shifted [] = refl
length-shifted (x ∷ xs) = ap suc (length-shifted xs)

abbrev shift64 : Base64
shift64 = record {
  encode = λ b. shifted b ++ pads (fill b);
  decode = λ s. some (unshift s);
  body = shifted;
  padding = fill;
  encode-body = λ b. refl;
  body-pad = shifted-has_pad;
  padding_le = λ b. omega arith;
  whole = λ b. omega (arith, length-shifted b);
  decode-encode = λ b. ap some (unshift-shifted b (fill b));
}

abbrev cut : ℕ → Text → Text × Text
cut zero s = ([], s)
cut (suc n) [] = ([], [])
cut (suc n) (c ∷ cs) = let (a, b) = cut n cs in (c ∷ a, b)

cut-append : (xs ys : Text) → cut (length xs) (xs ++ ys) ≡ (xs, ys)
cut-append [] ys = refl
cut-append (x ∷ xs) ys = ap (λ r. (x ∷ r.0, r.1)) (cut-append xs ys)

abbrev counted_dumps : Payload → List ℕ
counted_dumps p =
    p.version ∷ length p.scope ∷ (p.scope ++ (length p.timestamp ∷ (p.timestamp ++ p.identifier)))

abbrev last_fields : ℕ → Text → Text → Option Payload
last_fields v scope [] = none
last_fields v scope (n ∷ rest) =
    let (t, k) = cut n rest in
    some (record { version = v; scope = scope; timestamp = t; identifier = k })

abbrev counted_loads : List ℕ → Option Payload
counted_loads [] = none
counted_loads (v ∷ []) = none
counted_loads (v ∷ n ∷ rest) = let (s, more) = cut n rest in last_fields v s more

counted_loads-counted_dumps : (p : Payload) → counted_loads (counted_dumps p) ≡ some p
counted_loads-counted_dumps p =
    let first = cut-append p.scope (length p.timestamp ∷ (p.timestamp ++ p.identifier)) in
    let second = cut-append p.timestamp p.identifier in rw (first, second) refl

abbrev show_time : Timestamp → Text
show_time t = elim t.zone [ none ↦ t.at ∷ [] | some z ↦ t.at ∷ z ∷ [] ]

abbrev read_time : Text → Option Timestamp
read_time (n ∷ []) = some (record { at = n; zone = none })
read_time (n ∷ z ∷ []) = some (record { at = n; zone = some z })
read_time _ = none

read_time-show_time : (t : Timestamp) → read_time (show_time t) ≡ some t
read_time-show_time t = elim (Option-cases t.zone) [
  | inl e ↦ ground (arith, e)
  | inr (z, e) ↦ ground (arith, e)
]

abbrev read_number : Text → Option ℕ
read_number (k ∷ []) = some k
read_number _ = none

abbrev counted : Formats
counted = record {
  dumps = counted_dumps;
  loads = counted_loads;
  isoformat = show_time;
  fromisoformat = read_time;
  show_uuid = λ k. k ∷ [];
  read_uuid = read_number;
  loads-dumps = counted_loads-counted_dumps;
  fromisoformat-isoformat = read_time-show_time;
  read_uuid-show_uuid = λ k. refl;
}

abbrev noon : Timestamp
noon = record { at = 4320; zone = some 0 }

decode_cursor-encode_cursor_example :
    decode_cursor shift64 counted (encode_cursor shift64 counted (1 ∷ 2 ∷ []) noon 77) (1 ∷ 2 ∷ [])
    ≡ (if same_text (1 ∷ 2 ∷ []) (1 ∷ 2 ∷ []) then answer (noon, 77) else raised invalid_cursor)
decode_cursor-encode_cursor_example =
    decode_cursor-encode_cursor shift64 counted (1 ∷ 2 ∷ []) noon 77 (1 ∷ 2 ∷ []) refl
