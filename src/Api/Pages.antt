-- ===== src/Api/Pages.antt =====
-- Cursor pagination, src/intel/api/pagination.py. A text is the list of its characters' codes. The
-- signature (HMAC), base64 and the two conversions between numbers and texts are given; what is relied
-- on of them is `Faithful`. A page size is a positive number, as the query parameter's type says.
use semiconductor_intel.Prelude.{
  ℕ, zero, suc, ◌+◌, ◌≤◌, ◌<◌, All, ◌≡◌, refl, sym, ap, ◌∙◌, Bool, true, false, Option, none, some,
  List, [], ◌∷◌, ◌++◌, arith, length, take, drop, ltb, nat_eq, ◌==◌, if◌then◌else◌, Bool-cases, inl,
  inr, length-drop, take-append-drop,
}
use mathlib.Core.List.{append-nil}

abbrev pub Text : Type 0
Text = List ℕ

-- Python's int.
pub data ℤ : Type 0 where
  pos : ℕ → ℤ
  negsuc : ℕ → ℤ

pub record Codec : Type 0 where
  -- the first 16 hexadecimal digits of the HMAC of the number under the key
  pub mac : ℤ → Text → Text
  -- urlsafe_b64encode without its padding, and its inverse with the padding; none is a ValueError
  pub b64encode : Text → Text
  pub b64decode : Text → Option Text
  -- str(n) and int(text); none is a ValueError
  pub str : ℤ → Text
  pub int : Text → Option ℤ

abbrev colon : ℕ
colon = 58

-- Text equality.
abbrev same_text : Text → Text → Bool
same_text [] [] = true
same_text [] (d ∷ t) = false
same_text (c ∷ s) [] = false
same_text (c ∷ s) (d ∷ t) = if c == d then same_text s t else false

-- str.partition(":"): what stands before the first colon and after it.
abbrev pub partition : Text → Text × Text
partition [] = ([], [])
partition (c ∷ t) = let (l, r) = partition t in if c == colon then ([], t) else (c ∷ l, r)

abbrev non_negative : ℤ → ℕ
non_negative (pos n) = n
non_negative (negsuc n) = 0

pub record Page (A : Type 0) : Type 0 where
  pub items : List A
  pub next_cursor : Option Text

module _ (codec : Codec) (signing_key : Text) where
  unfoldable pub encode_cursor : ℤ → Text
  encode_cursor offset = codec.b64encode (codec.str offset ++ colon ∷ codec.mac offset signing_key)

  abbrev pub checked : Text → Option ℤ → ℕ
  checked mac none = 0
  checked mac (some offset) =
      if same_text mac (codec.mac offset signing_key) then non_negative offset else 0

  abbrev pub read_raw : Option Text → ℕ
  read_raw none = 0
  read_raw (some raw) = checked (partition raw).1 (codec.int (partition raw).0)

  unfoldable pub decode_cursor : Option Text → ℕ
  decode_cursor none = 0
  decode_cursor (some []) = 0
  decode_cursor (some (c ∷ token)) = read_raw (codec.b64decode (c ∷ token))

  unfoldable pub paginate : {A : Type 0} → List A → Option Text → ℕ → Page A
  unfolding decode_cursor encode_cursor
  paginate items cursor page_size =
      let offset = decode_cursor cursor in
      record {
        items = take page_size (drop offset items);
        next_cursor =
            if ltb (offset + page_size) (length items)
            then some (encode_cursor (pos (offset + page_size)))
            else none;
      }

-- The character is none of the text's.
abbrev Lacks : ℕ → Text → Type 0
Lacks c [] = Unit
Lacks c (d ∷ t) = ((d == c) ≡ false) × Lacks c t

abbrev pub Ascii : Text → Type 0
Ascii t = All (λ c. c < 128) t

-- '0' to '9'
abbrev pub Digits : Text → Type 0
Digits t = All (λ c. (48 ≤ c) × (c ≤ 57)) t

-- What is relied on, for numbers below a limit: Python converts numbers of up to 4300 digits to text
-- and back. Base64 is only relied on for ASCII texts, which are all that the cursor encodes.
pub record Faithful (codec : Codec) (signing_key : Text) (limit : ℕ) : Type 0 where
  pub decodes : (t : Text) → Ascii t → codec.b64decode (codec.b64encode t) ≡ some t
  pub some_text :
      (c : ℕ) (t : Text) → Ascii (c ∷ t) → (d : ℕ) × (r : Text) × (codec.b64encode (c ∷ t) ≡ d ∷ r)
  pub reads : (n : ℕ) → n < limit → codec.int (codec.str (pos n)) ≡ some (pos n)
  pub digits : (n : ℕ) → n < limit → Digits (codec.str (pos n))
  pub plain_mac : (n : ℕ) → n < limit → Ascii (codec.mac (pos n) signing_key)

Digits-Lacks : (t : Text) → Digits t → Lacks colon t
Digits-Lacks [] h = tt
Digits-Lacks (c ∷ t) ((low, high), h) = (ground (arith, low, high), Digits-Lacks t h)

signed-Ascii : (s t : Text) → Digits s → Ascii t → Ascii (s ++ colon ∷ t)
signed-Ascii [] t h k = (omega arith, k)
signed-Ascii (c ∷ s) t ((low, high), h) k = (omega (arith, high), signed-Ascii s t h k)

same_text_refl : (t : Text) → same_text t t ≡ true
same_text_refl [] = refl
same_text_refl (c ∷ t) = rw ((nat_eq.beq_iff c c).1 refl) (same_text_refl t)

partition_at : (s t : Text) → Lacks colon s → partition (s ++ colon ∷ t) ≡ (s, t)
partition_at [] t h = refl
partition_at (c ∷ s) t (other, h) = rw (partition_at s t h, other) refl

module _ (codec : Codec) (signing_key : Text) (limit : ℕ)
    (f : Faithful codec signing_key limit) where
  encoded :
      (s t : Text)
      → Ascii (s ++ colon ∷ t)
      → (d : ℕ) × (r : Text) × (codec.b64encode (s ++ colon ∷ t) ≡ d ∷ r)
  encoded [] t h = f.some_text colon t h
  encoded (c ∷ s) t h = f.some_text c (s ++ colon ∷ t) h

  decode-encode :
      (n : ℕ)
      → n < limit
      → decode_cursor codec signing_key (some (encode_cursor codec signing_key (pos n))) ≡ n
  unfolding decode_cursor encode_cursor
  decode-encode n low =
      let mac = codec.mac (pos n) signing_key in
      let raw = codec.str (pos n) ++ colon ∷ mac in
      let plain = signed-Ascii (codec.str (pos n)) mac (f.digits n low) (f.plain_mac n low) in
      let (c, r, e) = encoded (codec.str (pos n)) mac plain in
      ap (λ x. decode_cursor codec signing_key (some x)) e
      ∙ ap (λ x. read_raw codec signing_key (codec.b64decode x)) (sym e)
      ∙ ap (read_raw codec signing_key) (f.decodes raw plain)
      ∙ ap (λ (x : Text × Text). checked codec signing_key x.1 (codec.int x.0))
          (partition_at (codec.str (pos n)) mac (Digits-Lacks (codec.str (pos n)) (f.digits n low)))
      ∙ ap (checked codec signing_key mac) (f.reads n low)
      ∙ rw (same_text_refl mac) refl

module _ {A : Type 0} where
  drop-all : (n : ℕ) (l : List A) → length l ≤ n → drop n l ≡ []
  drop-all zero [] h = refl
  drop-all zero (x ∷ l) h = absurd (omega (arith, h))
  drop-all (suc n) [] h = refl
  drop-all (suc n) (x ∷ l) h = drop-all n l (omega (arith, h))

  take-all : (n : ℕ) (l : List A) → length l ≤ n → take n l ≡ l
  take-all zero [] h = refl
  take-all zero (x ∷ l) h = absurd (omega (arith, h))
  take-all (suc n) [] h = refl
  take-all (suc n) (x ∷ l) h = ap (◌∷◌ x) (take-all n l (omega (arith, h)))

  drop-drop : (n m : ℕ) (l : List A) → drop m (drop n l) ≡ drop (n + m) l
  drop-drop zero m l = let e : m ≡ 0 + m = omega arith in ap (λ k. drop k l) e
  drop-drop (suc n) m [] = drop-all m [] (omega arith) ∙ sym (drop-all (suc n + m) [] (omega arith))
  drop-drop (suc n) m (x ∷ l) =
      let e : suc (n + m) ≡ suc n + m = omega arith in drop-drop n m l ∙ ap (λ k. drop k (x ∷ l)) e

module _ (codec : Codec) (signing_key : Text) {A : Type 0} (items : List A) (page_size : ℕ) where
  abbrev page_at : Option Text → Page A
  page_at cursor = paginate codec signing_key items cursor page_size

  -- The items of a client that asks for the next page until there is none, at most so many times.
  unfoldable pub walk : ℕ → Option Text → List A
  walk zero cursor = []
  walk (suc n) cursor =
      (page_at cursor).items
      ++ elim (page_at cursor).next_cursor [ none ↦ [] | some next ↦ walk n (some next) ]

  module _ (limit : ℕ) (f : Faithful codec signing_key limit) (short : length items ≤ limit)
      (some_size : 1 ≤ page_size) where
    walk_from :
        (n o : ℕ) (cursor : Option Text)
        → decode_cursor codec signing_key cursor ≡ o
        → length items ≤ o + n
        → walk n cursor ≡ drop o items
    unfolding walk paginate
    walk_from zero o cursor e h = sym (drop-all o items (omega (arith, h)))
    walk_from (suc n) o cursor e h = elim (Bool-cases (ltb (o + page_size) (length items))) [
      | inl more ↦
          rw (e, more)
            (ap (λ l. take page_size (drop o items) ++ l)
                (walk_from n (o + page_size) _
                    (decode-encode codec signing_key limit f (o + page_size)
                      (ground (arith, more, short)))
                    (omega (arith, h, some_size))
                  ∙ sym (drop-drop o page_size items))
              ∙ take-append-drop page_size (drop o items))
      | inr last ↦
          rw (e, last)
            (append-nil _
              ∙ take-all page_size (drop o items) (
                  let ends : length items ≤ o + page_size = ground (arith, last) in
                  omega (arith, length-drop o items, ends)))
    ]

    -- Let base64 decode what it encodes of ASCII texts, and encode none but the empty one as the
    -- empty text; let every number below a limit be written in decimal digits that are read as that
    -- number, and have an ASCII signature. Then with a page size of one or more and no more items
    -- than the limit, a client that follows the cursors from the first page on until there is none
    -- gets every item once and in order; one request more than there are items is enough.
    pub walk-all : walk (suc (length items)) none ≡ items
    unfolding decode_cursor
    walk-all = walk_from (suc (length items)) 0 none refl (omega arith)
