-- ===== src/Sipfw/ConfFile/Lines.antt =====
-- SIPFW_ReadLine on a line that ends in a newline.
use linux_program_practice.Sipfw.ConfFile.{
  ends_line, finish_line, poke, read_bytes, read_line, ReadLine, eof,
}
use linux_program_practice.Base.{
  ℕ, suc, ◌+◌, ◌≤◌, ◌<◌, ◌≡◌, refl, ◌∙◌, true, false, not, ◌||◌, none, some, List, [], ◌∷◌, ◌++◌,
  append_assoc, arith, ltb, ◌==◌, lt→ltb, length, get_elem?, drop, All, length-append,
  get_elem?-append, set-append,
}

-- A byte that does not end a line.
abbrev pub IsPlain : ℕ → Type 0
IsPlain b = ends_line b ≡ false

poke-append :
    (xs : List ℕ) (y : ℕ) (ys : List ℕ) (i v : ℕ)
    → i ≡ length xs
    → poke (xs ++ y ∷ ys) i v ≡ some (xs ++ v ∷ ys)
poke-append xs y ys i v e = rw (
  lt→ltb i (length (xs ++ y ∷ ys)) (omega (arith, length-append xs (y ∷ ys))),
  set-append xs y ys i v e,
)

-- The loop stops at a byte that ends a line, whatever is left to read.
read_bytes_stop :
    (len count i : ℕ) (buf content : List ℕ) (b : ℕ)
    → get_elem? buf i ≡ some b
    → (ends_line b || not (ltb count len)) ≡ true
    → read_bytes len count i buf content ≡ finish_line count i buf content
unfolding read_bytes
read_bytes_stop len count i buf [] b e h = rw (e, h)
read_bytes_stop len count i buf (c ∷ cs) b e h = rw (e, h)

-- A newline behind `xs` is replaced by a zero.
finish_newline :
    (n count i : ℕ) (xs ys rest : List ℕ)
    → i ≡ length xs
    → n ≡ suc count
    → finish_line n i (xs ++ b'\n' ∷ ys) rest
      ≡ some (record { count = count; buf = xs ++ 0 ∷ ys; rest = rest })
unfolding finish_line
finish_newline n count i xs ys rest e m =
    rw (get_elem?-append xs b'\n' ys i e, poke-append xs b'\n' ys i 0 e) (ground arith)

poke_next :
    (i : ℕ) (xs : List ℕ) (b t c : ℕ) (tail : List ℕ)
    → i ≡ length xs
    → poke (xs ++ b ∷ t ∷ tail) (i + 1) c ≡ some ((xs ++ b ∷ []) ++ c ∷ tail)
poke_next i xs b t c tail e =
    rw (append_assoc xs (b ∷ []) (t ∷ tail)) at
      (poke-append (xs ++ b ∷ []) t tail (i + 1) c (omega (arith, length-append xs (b ∷ []))))

-- One round, on a plain byte.
read_bytes_step :
    (len count i : ℕ) (xs : List ℕ) (b t : ℕ) (tail : List ℕ) (c : ℕ) (cs : List ℕ)
    → i ≡ length xs
    → IsPlain b
    → count < len
    → read_bytes len count i (xs ++ b ∷ t ∷ tail) (c ∷ cs)
      ≡ read_bytes len (count + 1) (i + 1) ((xs ++ b ∷ []) ++ c ∷ tail) cs
unfolding read_bytes
read_bytes_step len count i xs b t tail c cs e p h =
    rw (get_elem?-append xs b (t ∷ tail) i e, p, lt→ltb count len h, poke_next i xs b t c tail e)

read_bytes_line :
    (len count i : ℕ) (xs : List ℕ) (b : ℕ) (ys tail rest : List ℕ)
    → i ≡ length xs
    → All IsPlain (b ∷ ys)
    → count + length ys < len
    → length ys < length tail
    → read_bytes len count i (xs ++ b ∷ tail) (ys ++ b'\n' ∷ rest)
      ≡ some (record {
        count = count + length ys;
        buf = xs ++ b ∷ (ys ++ 0 ∷ drop (suc (length ys)) tail);
        rest = rest;
      })
read_bytes_line len count i xs b [] [] rest e p h k = elim k [ ]
read_bytes_line len count i xs b (y ∷ ys) [] rest e p h k = elim k [ ]
read_bytes_line len count i xs b [] (t ∷ tail) rest e p h k =
    let behind : i + 1 ≡ length (xs ++ b ∷ []) = omega (arith, length-append xs (b ∷ [])) in
    read_bytes_step len count i xs b t tail b'\n' rest e p.0 (omega arith)
    ∙ read_bytes_stop len (count + 1) (i + 1) ((xs ++ b ∷ []) ++ b'\n' ∷ tail) rest b'\n'
        (get_elem?-append (xs ++ b ∷ []) b'\n' tail (i + 1) behind) refl
    ∙ finish_newline (count + 1) (count + 0) (i + 1) (xs ++ b ∷ []) tail rest behind (omega arith)
    ∙ simp append_assoc
read_bytes_line len count i xs b (y ∷ ys) (t ∷ tail) rest e p h k =
    let behind : i + 1 ≡ length (xs ++ b ∷ []) = omega (arith, length-append xs (b ∷ [])) in
    let moved : count + 1 + length ys ≡ count + suc (length ys) = omega arith in
    read_bytes_step len count i xs b t tail y (ys ++ b'\n' ∷ rest) e p.0 (omega arith)
    ∙ read_bytes_line len (count + 1) (i + 1) (xs ++ b ∷ []) y ys tail rest behind p.1 (omega arith)
        (omega arith)
    ∙ rw moved (simp append_assoc)

-- A line of plain bytes that is not empty and, with its newline, no longer than the limit is read
-- whole: the count is its length, the buffer holds it with a zero behind it and is else as it was,
-- and the file goes on behind the newline.
pub read_line_lem :
    (len : ℕ) (buf : List ℕ) (b : ℕ) (ys rest : List ℕ)
    → All IsPlain (b ∷ ys)
    → suc (length ys) < len
    → suc (length ys) < length buf
    → read_line len buf (b ∷ (ys ++ b'\n' ∷ rest))
      ≡ some (record {
        count = suc (length ys);
        buf = b ∷ (ys ++ 0 ∷ drop (suc (suc (length ys))) buf);
        rest = rest;
      })
unfolding read_line
read_line_lem len [] b ys rest p h k = elim k [ ]
read_line_lem len (t ∷ tail) b ys rest p h k =
    let more : 1 + length ys ≡ suc (length ys) = omega arith in
    let plain : (b == eof) ≡ false = ground arith in
    rw (poke-append [] t tail 0 b refl, plain)
      (read_bytes_line len 1 0 [] b ys tail rest refl p (omega arith) (omega arith) ∙ rw more)

-- An empty line gives the count 0, like the end of the file.
pub read_line_empty :
    (len : ℕ) (buf rest : List ℕ)
    → 0 < length buf
    → (l : ReadLine) × (read_line len buf (b'\n' ∷ rest) ≡ some l) × (l.count ≡ 0)
unfolding read_line
read_line_empty len [] rest h = elim h [ ]
read_line_empty len (t ∷ tail) rest h = (
  record { count = 0; buf = 0 ∷ tail; rest = rest },
  rw (poke-append [] t tail 0 b'\n' refl) (
      read_bytes_stop len 1 0 (b'\n' ∷ tail) rest b'\n' refl refl
      ∙ finish_newline 1 0 0 [] tail rest refl refl),
  refl,
)

-- A plain byte at the end of the buffer: the zero does not fit behind it.
finish_full :
    (count i : ℕ) (xs : List ℕ) (b : ℕ) (rest : List ℕ)
    → i ≡ length xs
    → IsPlain b
    → finish_line count i (xs ++ b ∷ []) rest ≡ none
unfolding finish_line
finish_full count i xs b rest e p =
    let outside : ltb (i + 1) (length (xs ++ b ∷ [])) ≡ false =
      ground (arith, length-append xs (b ∷ [])) in
    rw (get_elem?-append xs b [] i e) (ground (arith, outside))

read_bytes_full :
    (len count i : ℕ) (xs : List ℕ) (b : ℕ) (tail ys rest : List ℕ)
    → i ≡ length xs
    → count ≡ i + 1
    → count + length tail ≡ len
    → All IsPlain (b ∷ ys)
    → length tail ≤ length ys
    → read_bytes len count i (xs ++ b ∷ tail) (ys ++ rest) ≡ none
read_bytes_full len count i xs b [] ys rest e c m p h =
    read_bytes_stop len count i (xs ++ b ∷ []) (ys ++ rest) b (get_elem?-append xs b [] i e)
      (ground arith)
    ∙ finish_full count i xs b (ys ++ rest) e p.0
read_bytes_full len count i xs b (t ∷ tail) [] rest e c m p h = elim h [ ]
read_bytes_full len count i xs b (t ∷ tail) (y ∷ ys) rest e c m p h =
    read_bytes_step len count i xs b t tail y (ys ++ rest) e p.0 (omega arith)
    ∙ read_bytes_full len (count + 1) (i + 1) (xs ++ b ∷ []) y tail ys rest
        (omega (arith, length-append xs (b ∷ []))) (omega arith) (omega arith) p.1 (omega arith)

-- Where a line starts with at least as many plain bytes as the buffer has, the function writes
-- behind the end of the buffer.
pub read_line_overflow :
    (t b : ℕ) (tail ys rest : List ℕ)
    → All IsPlain (b ∷ ys)
    → length tail ≤ length ys
    → read_line (length (t ∷ tail)) (t ∷ tail) (b ∷ (ys ++ rest)) ≡ none
unfolding read_line
read_line_overflow t b tail ys rest p h =
    let plain : (b == eof) ≡ false = ground arith in
    rw (poke-append [] t tail 0 b refl, plain)
      (read_bytes_full (length (t ∷ tail)) 1 0 [] b tail ys rest refl refl (omega arith) p h)
