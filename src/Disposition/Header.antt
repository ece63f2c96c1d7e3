-- ===== src/Disposition/Header.antt =====
-- The characters of the Content-Disposition header of media_service/storage/presign.py.
use media_service_m.Prelude.{
  inl, inr, leb, all, ◌&&◌, ℕ, ◌+◌, ◌/◌, ◌%◌, ◌≤◌, ◌<◌, Bool, true, false, List, [], ◌∷◌, ◌++◌, map,
  ◌==◌, ◌≡◌, refl, arith, All, filter, length, Text, codes, Bool-cases, ltb,
}
use mathlib.Core.List.{reverse, reverse_aux}
use media_service_m.Model.Store.{Externals}
use media_service_m.Keys.{lstrip, strip, replace, last_segment}
use media_service_m.Disposition.{
  hex_digit, utf8, quote_byte, quote_bytes, encode, quote, disposition_char, is_ascii,
  ascii_fallback, or_download, safe_content_disposition,
}

-- A printable ASCII character.
abbrev pub IsPrintable : ℕ → Type 0
IsPrintable c = (0x20 ≤ c) × (c < 0x7f)

abbrev is_printable : ℕ → Bool
is_printable c = leb 0x20 c && ltb c 0x7f

abbrev pub is_quotation : ℕ → Bool
is_quotation c = c == 0x22

abbrev pub quotations : Text → ℕ
quotations t = length (filter is_quotation t)

-- Printable, without a quotation mark.
abbrev IsInert : ℕ → Type 0
IsInert c = IsPrintable c × ((c == 0x22) ≡ false)

-- A byte.
abbrev IsByte : ℕ → Type 0
IsByte b = b < 256

All-append : (P : ℕ → Type 0) (xs ys : Text) → All P xs → All P ys → All P (xs ++ ys)
All-append P [] ys p q = q
All-append P (x ∷ xs) ys p q = (p.0, All-append P xs ys p.1 q)

quotations-append : (xs ys : Text) → quotations (xs ++ ys) ≡ quotations xs + quotations ys
quotations-append [] ys = omega arith
quotations-append (x ∷ xs) ys = ground (arith, quotations-append xs ys)

inert-quotations : (t : Text) → All IsInert t → quotations t ≡ 0
inert-quotations [] h = refl
inert-quotations (c ∷ t) h = ground (arith, inert-quotations t)

inert-IsPrintable : (t : Text) → All IsInert t → All IsPrintable t
inert-IsPrintable [] h = tt
inert-IsPrintable (c ∷ t) h = (h.0.0, inert-IsPrintable t h.1)

-- The code points of a Python string.
abbrev pub IsScalar : ℕ → Type 0
IsScalar c = c < 0x110000

hex_digit-IsInert : (n : ℕ) → n < 16 → IsInert (hex_digit n)
hex_digit-IsInert n h = ground arith

quote_byte-IsInert : (b : ℕ) → IsByte b → All IsInert (quote_byte b)
quote_byte-IsInert b h = ground (arith, hex_digit-IsInert (b / 16), hex_digit-IsInert (b % 16))

utf8-bytes : (c : ℕ) → IsScalar c → All IsByte (utf8 c)
utf8-bytes c h = ground arith

quote_bytes-IsInert : (bytes : List ℕ) → All IsByte bytes → All IsInert (quote_bytes bytes)
quote_bytes-IsInert [] h = tt
quote_bytes-IsInert (b ∷ bytes) h =
    All-append IsInert (quote_byte b) (quote_bytes bytes) (quote_byte-IsInert b h.0)
      (quote_bytes-IsInert bytes h.1)

encode-bytes : (t : Text) → All IsScalar t → All IsByte (encode t)
encode-bytes [] h = tt
encode-bytes (c ∷ t) h =
    All-append IsByte (utf8 c) (encode t) (utf8-bytes c h.0) (encode-bytes t h.1)

kept-IsInert : (t : Text) → All IsInert (filter is_ascii (map disposition_char t))
kept-IsInert [] = tt
kept-IsInert (c ∷ t) = ground (arith, kept-IsInert t)

or_download-IsInert : (t : Text) → All IsInert t → All IsInert (or_download t)
or_download-IsInert [] h = ground arith
or_download-IsInert (c ∷ t) h = h

-- What an operation on a name keeps of its code points.
abbrev Keeps : (Text → Text) → Type 0
Keeps f = (t : Text) → All IsScalar t → All IsScalar (f t)

lstrip-Keeps : (ext : Externals) → Keeps (lstrip ext)
unfolding lstrip
lstrip-Keeps ext [] h = tt
lstrip-Keeps ext (c ∷ t) h = elim (Bool-cases (ext.is_space c)) [
  | inl space ↦ rw space (lstrip-Keeps ext t h.1)
  | inr other ↦ rw other h
]

replace-Keeps : Keeps (replace b'\\' b'/')
replace-Keeps [] h = tt
replace-Keeps (c ∷ t) h = (ground arith, replace-Keeps t h.1)

last_segment-Keeps : Keeps last_segment
unfolding last_segment
last_segment-Keeps [] h = tt
last_segment-Keeps (c ∷ t) h = ground (arith, last_segment-Keeps t h.1)

reverse_aux-Keeps :
    (t done : Text) → All IsScalar t → All IsScalar done → All IsScalar (reverse_aux t done)
reverse_aux-Keeps [] done h k = k
reverse_aux-Keeps (c ∷ t) done h k = reverse_aux-Keeps t (c ∷ done) h.1 (h.0, k)

reverse-Keeps : Keeps reverse
reverse-Keeps t h = reverse_aux-Keeps t [] h tt

strip-Keeps : (ext : Externals) → Keeps (strip ext)
unfolding strip
strip-Keeps ext t h = reverse-Keeps (lstrip ext (reverse (lstrip ext t))) (
    lstrip-Keeps ext (reverse (lstrip ext t)) (reverse-Keeps (lstrip ext t) (lstrip-Keeps ext t h)))

printable : (t : Text) → all is_printable t ≡ true → All IsPrintable t
printable [] h = tt
printable (c ∷ t) h = (ground arith, printable t (ground arith))

-- Two inert texts between two that hold a quotation mark each.
wrapped :
    (a f m q : Text)
    → All IsPrintable a
    → All IsInert f
    → All IsPrintable m
    → All IsInert q
    → quotations a ≡ 1
    → quotations m ≡ 1
    → All IsPrintable (a ++ (f ++ (m ++ q))) × (quotations (a ++ (f ++ (m ++ q))) ≡ 2)
wrapped a f m q ha hf hm hq qa qm = (
  All-append IsPrintable a (f ++ (m ++ q)) ha (
      All-append IsPrintable f (m ++ q) (inert-IsPrintable f hf)
        (All-append IsPrintable m q hm (inert-IsPrintable q hq))),
  omega (
    arith,
    quotations-append a (f ++ (m ++ q)),
    quotations-append f (m ++ q),
    quotations-append m q,
    inert-quotations f hf,
    inert-quotations q hq,
  ),
)

header-inert :
    (base : Text)
    → All IsScalar base
    → let header =
        codes "attachment; filename=\""
        ++ (ascii_fallback base ++ (codes "\"; filename*=UTF-8''" ++ quote base)) in
      All IsPrintable header × (quotations header ≡ 2)
unfolding quote ascii_fallback
header-inert base h =
    let fallback =
      or_download-IsInert (filter is_ascii (map disposition_char base)) (kept-IsInert base) in
    let quoted = quote_bytes-IsInert (encode base) (encode-bytes base h) in
    wrapped (codes "attachment; filename=\"") (ascii_fallback base) (codes "\"; filename*=UTF-8''")
      (quote base) (printable (codes "attachment; filename=\"") refl) fallback
      (printable (codes "\"; filename*=UTF-8''") refl) quoted refl refl

-- Whatever name a client typed, the header is printable ASCII, so that no CR or LF starts another
-- header, and has no quotation mark but the two around its file name.
pub safe_content_disposition-IsPrintable :
    (ext : Externals) (filename : Text)
    → All IsScalar filename
    → All IsPrintable (safe_content_disposition ext filename)
      × (quotations (safe_content_disposition ext filename) ≡ 2)
unfolding safe_content_disposition
safe_content_disposition-IsPrintable ext filename h =
    header-inert (last_segment (replace b'\\' b'/' (strip ext filename))) (
      last_segment-Keeps (replace b'\\' b'/' (strip ext filename))
        (replace-Keeps (strip ext filename) (strip-Keeps ext filename h)))
