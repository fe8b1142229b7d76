-- ===== src/Cuecat/Written.antt =====
-- What a reader writes for three fields, and the decoder's way back.
use semicomplete_googlecode.Common.{
  ℕ, suc, ◌+◌, ◌*◌, ◌/◌, ◌%◌, ◌<◌, ◌≡◌, List, [], ◌∷◌, arith, zero, ◌≤◌, refl, ap, ◌∙◌, some, All,
  length, Option, ◌>>=◌, ◌&&◌, none, ◌++◌, ◌==◌, if◌then◌else◌,
}
use semicomplete_googlecode.Cuecat.{
  Cat, decodecat, list_of, xlate, char_at, xor_c, push, process_loop, process_code, get_cat,
  swallow_dot, process_tail, xlate_all,
}
use semicomplete_googlecode.Cuecat.Groups.{
  letter, xor_c_twice, cat_at, letter-Stands, three_more, process_loop-group,
}

pub record Group : Type 0 where
  pub x : ℕ
  pub y : ℕ
  pub z : ℕ

pub record IsGroup (g : Group) : Type 0 where
  pub x_byte : g.x < 256
  pub y_byte : g.y < 256
  pub z_byte : g.z < 256

-- Four letters of six bits, of a-z, A-Z, 0-9, '+' and '/', over the bytes in the cipher of the reader.
abbrev pub letters : Group → List ℕ → List ℕ
letters g rest =
    letter (xor_c g.x / 4)
    ∷ letter (xor_c g.x % 4 * 16 + xor_c g.y / 16)
    ∷ letter (xor_c g.y % 16 * 4 + xor_c g.z / 64)
    ∷ letter (xor_c g.z % 64)
    ∷ rest

-- A field ends with a dot.
unfoldable pub written : List Group → List ℕ → List ℕ
written [] rest = b'.' ∷ rest
written (g ∷ gs) rest = letters g (written gs rest)

unfoldable pub bytes : List Group → List ℕ
bytes [] = []
bytes (g ∷ gs) = g.x ∷ g.y ∷ g.z ∷ bytes gs

unfoldable pub push_all : List ℕ → List ℕ → List ℕ
push_all [] string = string
push_all (c ∷ cs) string = push_all cs (push c string)

abbrev pub front : List ℕ → List ℕ → Cat
front [] string = cat_at 0 [] 0 string
front (c ∷ cs) string = cat_at c cs 0 string

group_loop :
    (g : Group) (r : ℕ) (rs : List ℕ) (limit : ℕ) (string : List ℕ)
    → IsGroup g
    → process_loop (suc (suc (suc limit))) 0 (front (letters g (r ∷ rs)) string)
      ≡ three_more g.x g.y g.z
          (process_loop limit 0 (cat_at r rs 0 (push g.z (push g.y (push g.x string)))))
group_loop g r rs limit string h =
    let (x_back, x_small) = xor_c_twice g.x h.x_byte in
    let (y_back, y_small) = xor_c_twice g.y h.y_byte in
    let (z_back, z_small) = xor_c_twice g.z h.z_byte in
    let a = xor_c g.x / 4 in
    let b = xor_c g.x % 4 * 16 + xor_c g.y / 16 in
    let c = xor_c g.y % 16 * 4 + xor_c g.z / 64 in
    let d = xor_c g.z % 64 in
    let first : a * 4 + b / 16 % 4 ≡ xor_c g.x = omega arith in
    let second : b % 16 * 16 % 256 + c / 4 % 16 ≡ xor_c g.y = omega arith in
    let third : c % 4 * 64 % 256 + d % 64 ≡ xor_c g.z = omega arith in
    let loop =
      process_loop-group (letter a) (letter b) (letter c) (letter d) a b c d r rs
        (letter-Stands a (omega arith)) (letter-Stands b (omega arith))
        (letter-Stands c (omega arith)) (letter-Stands d (omega arith)) limit string in
    rw (first, second, third, x_back, y_back, z_back) at loop

-- The text of a field is not empty.
written-head :
    (gs : List Group) (rest : List ℕ)
    → All IsGroup gs
    → (r : ℕ) × (rs : List ℕ) × (written gs rest ≡ r ∷ rs)
unfolding written
written-head [] rest h = (b'.', rest, refl)
written-head (g ∷ gs) rest (h, _) = (_, _, refl)

process_loop-written :
    (limit : ℕ) (gs : List Group) (rest string : List ℕ)
    → All IsGroup gs
    → 3 * length gs ≤ limit
    → process_loop limit 0 (front (written gs rest) string)
      ≡ some (bytes gs, 0, cat_at b'.' rest 0 (push_all (bytes gs) string))
unfolding written bytes push_all
process_loop-written zero [] rest string h room = unfold process_loop in refl
process_loop-written (suc limit) [] rest string h room = unfold process_loop in refl
process_loop-written zero (g ∷ gs) rest string h room = absurd (omega arith)
process_loop-written (suc zero) (g ∷ gs) rest string h room = absurd (omega arith)
process_loop-written (suc (suc zero)) (g ∷ gs) rest string h room = absurd (omega arith)
process_loop-written (suc (suc (suc limit))) (g ∷ gs) rest string (hg, h) room =
    let string3 = push g.z (push g.y (push g.x string)) in
    let (r, rs, e) = written-head gs rest h in
    let rest_loop = process_loop-written limit gs rest string3 h (omega arith) in
    rw e (group_loop g r rs limit string hg) ∙ ap (three_more g.x g.y g.z) (rw e at rest_loop)

abbrev after_loop : Option (List ℕ × ℕ × Cat) → Option (List ℕ × Cat)
after_loop o = do r ← o; process_tail r.0 r.1 r.2

process_code-after_loop :
    (s : Cat) → process_code s ≡ after_loop (process_loop 60 0 (record s { string = [] }))
unfolding process_code
process_code-after_loop s = refl

-- The dot is skipped.
after_loop-dot :
    (out string : List ℕ) (r : ℕ) (rs : List ℕ)
    → after_loop (some (out, 0, cat_at b'.' (r ∷ rs) 0 string)) ≡ some (out, cat_at r rs 0 string)
unfolding process_tail swallow_dot get_cat
after_loop-dot out string r rs = refl

pub process_code-written :
    (gs : List Group) (r : ℕ) (rs string : List ℕ)
    → All IsGroup gs
    → length gs ≤ 20
    → process_code (front (written gs (r ∷ rs)) string)
      ≡ some (bytes gs, cat_at r rs 0 (push_all (bytes gs) []))
process_code-written gs r rs string h few =
    let (c, cs, e) = written-head gs (r ∷ rs) h in
    let loop = process_loop-written 60 gs (r ∷ rs) [] h (omega arith) in
    rw e (
      process_code-after_loop (cat_at c cs 0 string)
      ∙ ap after_loop (rw e at loop)
      ∙ after_loop-dot (bytes gs) (push_all (bytes gs) []) r rs)

-- The same for a text that is known to be that field.
field_read :
    (gs : List Group) (d : ℕ) (ds : List ℕ) (r : ℕ) (rs string : List ℕ)
    → All IsGroup gs
    → length gs ≤ 20
    → written gs (r ∷ rs) ≡ d ∷ ds
    → process_code (cat_at d ds 0 string) ≡ some (bytes gs, cat_at r rs 0 (push_all (bytes gs) []))
field_read gs d ds r rs string h few e = rw e at (process_code-written gs r rs string h few)

-- A field with nothing in it is its dot.
head_read :
    (d : ℕ) (ds : List ℕ) → process_code (cat_at b'.' (d ∷ ds) 0 []) ≡ some ([], cat_at d ds 0 [])
unfolding written bytes push_all
head_read d ds = process_code-written [] d ds [] tt (omega arith)

get_cat-dot :
    (xs : List ℕ)
    → get_cat (record { c = 0; rest = b'.' ∷ xs; hold = 0; string = [] })
      ≡ some (cat_at b'.' xs 0 [])
unfolding get_cat
get_cat-dot xs = refl

-- At the newline there is no field.
process_code-end :
    (string : List ℕ) → process_code (cat_at 10 [] 0 string) ≡ some ([], cat_at 10 [] 0 [])
unfolding process_code
process_code-end string = refl

-- A scan of three fields as a reader writes it, up to its newline.
pub scan_text : List Group → List Group → List Group → List ℕ
scan_text device kind code = b'.' ∷ written device (written kind (written code (10 ∷ [])))

-- The cue's text behind the two letters of its kind.
abbrev pub cue_of : List ℕ → List ℕ → Option (List ℕ)
cue_of kind code =
    if char_at kind 0 == b'C' && char_at kind 1 == b'C'
    then some (list_of (xlate (char_at kind 2)) ++ xlate_all code)
    else none

-- A scan that a reader writes, a dot and three fields of at most twenty groups each, with '+' and
-- '/' as the last two of its 64 letters, is read back
-- byte for byte: the device, the kind of code and the code, with nothing in the header and the
-- trailer.
pub decodecat-scan_text :
    (device kind code : List Group)
    → All IsGroup device
    → All IsGroup kind
    → All IsGroup code
    → length device ≤ 20
    → length kind ≤ 20
    → length code ≤ 20
    → decodecat (scan_text device kind code)
      ≡ some (record {
        header = [];
        device = bytes device;
        code_type = bytes kind;
        barcode = bytes code;
        cue = cue_of (push_all (bytes kind) []) (push_all (bytes code) []);
        trailer = [];
      })
unfolding scan_text
decodecat-scan_text device kind code hd hk hc fd fk fc =
    let (c, cs, ec) = written-head code (10 ∷ []) hc in
    let (k, ks, ek) = written-head kind (c ∷ cs) hk in
    let (d, ds, ed) = written-head device (k ∷ ks) hd in
    let kind_string = push_all (bytes kind) [] in
    unfold decodecat in
    rw
      (
        ec,
        ek,
        ed,
        get_cat-dot (d ∷ ds),
        head_read d ds,
        field_read device d ds k ks [] hd fd ed,
        field_read kind k ks c cs (push_all (bytes device) []) hk fk ek,
        field_read code c cs 10 [] kind_string hc fc ec,
        process_code-end (push_all (bytes code) []),
      )
      refl
