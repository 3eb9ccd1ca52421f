-- ===== src/Encoder/Writer/Wf.antt =====
-- encoder/Encoder.cpp: well-formed writers. The position stands inside the active limit and inside
-- the output, and each limit inside the one that was active before it.
use mathlib.Core.Path.{subst}
use embx.Prelude.{
  ℕ, zero, suc, ◌+◌, ◌-◌, ◌%◌, ◌/◌, ◌≤◌, max, ◌≡◌, refl, ◌∙◌, ◌⊎◌, inl, inr, Bool-cases, Bool, true,
  false, ◌||◌, List, [], ◌∷◌, ◌++◌, arith, ltb, ◌==◌, if◌then◌else◌, length, take, set, replicate,
  length-append, length-take, length-replicate, length-set,
}
use embx.Prelude.Result.{ok, err, ◌>>◌, >>=-eq-ok, refuse_if-eq-ok}
use embx.Runtime.Host.{to_uint64, size_max, sub_size, is_little}
use embx.Runtime.Bytes.{AreBytes}
use embx.Runtime.Reader.Wf.{IsChain, IsChain-le}
use embx.Encoder.Writer.Stored.{length-store, store-AreBytes, AreBytes-set}
use embx.Encoder.Writer.Call.{Call, run}
use embx.Encoder.Writer.{
  Writer, resize, grow, copy_at, ensure, set_endian, set_pos, seek, seek_root, write_zeros, align,
  bytes, store, begin_bits, bit, closing, move_to, push_limit, pop_limit, pop_to, truncate, uint,
  sint, end_bits,
}

pub record IsWf (w : Writer) : Type 0 where
  pub within : w.p ≤ w.limit
  pub nested : IsChain size_max w.limit w.limits
  pub filled : w.p ≤ length w.d
  pub fits : length w.d ≤ size_max
  pub contents : AreBytes w.d

pub length-resize : (n : ℕ) (d : List ℕ) → length (resize n d) ≡ n
unfolding resize
length-resize n d = omega (
  arith,
  length-append {0} (take n d) (replicate (n - length d) 0),
  length-take {0} n d,
  length-replicate {0} (n - length d) (zero),
)

pub length-grow : (n : ℕ) (d : List ℕ) → length (grow n d) ≡ max n (length d)
unfolding grow
length-grow n d = ground (arith, length-resize n d)

pub length-copy_at : (d : List ℕ) (p : ℕ) (bs : List ℕ) → length (copy_at d p bs) ≡ length d
unfolding copy_at
length-copy_at d p [] = refl
length-copy_at d p (b ∷ bs) = length-copy_at (set d p b) (p + 1) bs ∙ length-set d p b

AreBytes-take : (n : ℕ) (d : List ℕ) → AreBytes d → AreBytes (take n d)
AreBytes-take zero d h = tt
AreBytes-take (suc n) [] h = tt
AreBytes-take (suc n) (b ∷ d) h = (h.0, AreBytes-take n d h.1)

AreBytes-append : (a b : List ℕ) → AreBytes a → AreBytes b → AreBytes (a ++ b)
AreBytes-append [] b h k = k
AreBytes-append (x ∷ a) b h k = (h.0, AreBytes-append a b h.1 k)

pub AreBytes-zeros : (n : ℕ) → AreBytes (replicate n 0)
AreBytes-zeros zero = tt
AreBytes-zeros (suc n) = (omega arith, AreBytes-zeros n)

pub AreBytes-resize : (n : ℕ) (d : List ℕ) → AreBytes d → AreBytes (resize n d)
unfolding resize
AreBytes-resize n d h =
    AreBytes-append (take n d) (replicate (n - length d) 0) (AreBytes-take n d h)
      (AreBytes-zeros (n - length d))

pub AreBytes-grow : (n : ℕ) (d : List ℕ) → AreBytes d → AreBytes (grow n d)
unfolding grow
AreBytes-grow n d h = elim (ltb (length d) n) as (λ b. AreBytes (if b then resize n d else d)) [
  | true ↦ AreBytes-resize n d h
  | false ↦ h
]

pub AreBytes-copy_at :
    (d : List ℕ) (p : ℕ) (bs : List ℕ) → AreBytes d → AreBytes bs → AreBytes (copy_at d p bs)
unfolding copy_at
AreBytes-copy_at d p [] h k = h
AreBytes-copy_at d p (b ∷ bs) h k =
    AreBytes-copy_at (set d p b) (p + 1) bs (AreBytes-set d p b h k.0) k.1

pub inside : {w : Writer} → IsWf w → w.limit ≤ size_max
inside {w} wf = IsChain-le size_max w.limit w.limits wf.nested

-- What a client hands over: bytes below 256, and a `size_t`.
abbrev pub IsGiven : Call → Type 0
IsGiven (Call.bytes b) = AreBytes b
IsGiven (Call.truncate n) = n ≤ size_max
IsGiven _ = Unit

-- A new output and a new position that fit the limits.
moved-IsWf :
    {w : Writer} (d : List ℕ) (p : ℕ)
    → IsWf w
    → p ≤ w.limit
    → p ≤ length d
    → length d ≤ size_max
    → AreBytes d
    → IsWf (record w { d = d; p = p })
moved-IsWf d p wf a b c e = record {
  within = a;
  nested = wf.nested;
  filled = b;
  fits = c;
  contents = e;
}

move_to-IsWf : (n : ℕ) {w : Writer} → IsWf w → n ≤ w.limit → IsWf (move_to n w)
unfolding move_to
move_to-IsWf n {w} wf h =
    moved-IsWf (grow n w.d) n wf h (omega (arith, length-grow n w.d))
      (omega (arith, length-grow n w.d, inside wf, wf.fits)) (AreBytes-grow n w.d wf.contents)

room_lem : {w : Writer} → IsWf w → sub_size w.limit w.p ≡ w.limit - w.p
room_lem {w} wf = omega (arith, wf.within, inside wf)

ensure-room : (n : ℕ) {w : Writer} → IsWf w → ensure n w ≡ ok tt → w.p + n ≤ w.limit
unfolding ensure
ensure-room n {w} wf h = ground (arith, room_lem wf)

ensure_cases :
    (n : ℕ) (w : Writer) → (ensure n w ≡ ok tt) ⊎ (ensure n w ≡ err "write beyond active limit")
unfolding ensure
ensure_cases n w = ground arith

-- The output after `n` bytes at the position.
module _ (n : ℕ) {w : Writer} (wf : IsWf w) (room : w.p + n ≤ w.limit) where
  written-IsWf :
      (d : List ℕ)
      → length d ≡ max (w.p + n) (length w.d)
      → AreBytes d
      → IsWf (record w { d = d; p = w.p + n })
  written-IsWf d e contents =
      moved-IsWf d (w.p + n) wf room (omega arith) (omega (arith, inside wf, wf.fits)) contents

  stored-IsWf :
      (lsb_first : Bool) (v : ℕ)
      → IsWf (record w { d = store lsb_first (grow (w.p + n) w.d) w.p n v; p = w.p + n })
  stored-IsWf lsb_first v =
      written-IsWf (store lsb_first (grow (w.p + n) w.d) w.p n v)
        (length-store lsb_first (grow (w.p + n) w.d) w.p n v ∙ length-grow (w.p + n) w.d)
        (store-AreBytes lsb_first (grow (w.p + n) w.d) w.p n v
          (AreBytes-grow (w.p + n) w.d wf.contents))

  copied-IsWf :
      (b : List ℕ)
      → AreBytes b
      → IsWf (record w { d = copy_at (grow (w.p + n) w.d) w.p b; p = w.p + n })
  copied-IsWf b given =
      written-IsWf (copy_at (grow (w.p + n) w.d) w.p b)
        (length-copy_at (grow (w.p + n) w.d) w.p b ∙ length-grow (w.p + n) w.d)
        (AreBytes-copy_at (grow (w.p + n) w.d) w.p b (AreBytes-grow (w.p + n) w.d wf.contents)
          given)

  zeroed-IsWf : IsWf (record w {
    d =
        if ltb (length w.d) (w.p + n)
        then resize (w.p + n) w.d
        else copy_at w.d w.p (replicate n 0);
    p = w.p + n;
  })
  zeroed-IsWf = elim (Bool-cases (ltb (length w.d) (w.p + n))) [
    | inl short ↦ rw short (
        written-IsWf (resize (w.p + n) w.d) (ground (arith, length-resize (w.p + n) w.d))
          (AreBytes-resize (w.p + n) w.d wf.contents))
    | inr long ↦ rw long (
        written-IsWf (copy_at w.d w.p (replicate n 0))
          (ground (arith, length-copy_at w.d w.p (replicate n 0)))
          (AreBytes-copy_at w.d w.p (replicate n 0) wf.contents (AreBytes-zeros n)))
  ]

pop_to-IsWf : (ls : List ℕ) {w w' : Writer} → IsWf w → w.limits ≡ ls → pop_to ls w ≡ ok w' → IsWf w'
unfolding pop_to
pop_to-IsWf [] wf e h = cc
pop_to-IsWf (outer ∷ ls) {w} wf e h =
    let chain : IsChain size_max w.limit (outer ∷ ls) = rw e at wf.nested in ground arith

-- A method that writes `n` bytes after its check of the limit.
ensured :
    (n : ℕ) {w w' : Writer} (x : Writer)
    → IsWf w
    → (ensure n w >> ok x) ≡ ok w'
    → (w.p + n ≤ w.limit → IsWf x)
    → IsWf w'
ensured n {w} {w'} x wf h k = elim (ensure_cases n w) [
  | inl fits ↦
      let e : ok x ≡ ok w' = rw fits at h in
      let same : x ≡ w' = cc in subst IsWf same (k (ensure-room n wf fits))
  | inr full ↦ let e : err "write beyond active limit" ≡ ok w' = rw full at h in cc
]

write_zeros-IsWf : (n : ℕ) {w w' : Writer} → IsWf w → write_zeros n w ≡ ok w' → IsWf w'
unfolding write_zeros
write_zeros-IsWf n {w} {w'} wf h =
    let (u, fits, rest) = >>=-eq-ok (ensure n w) _ h in
    ensured n _ wf (rw fits ((refuse_if-eq-ok _ _ _ rest).1)) (zeroed-IsWf n wf)

module _ (host_little : Bool) where
  uint-IsWf : (v n : ℕ) {w w' : Writer} → IsWf w → uint host_little v n w ≡ ok w' → IsWf w'
  unfolding uint
  uint-IsWf v n {w} wf h =
      ensured n _ wf (refuse_if-eq-ok (n == 0 || ltb 8 n) _ _ h).1
        (λ room. stored-IsWf n wf room (is_little host_little w.e) v)

  -- A call on a well-formed writer that does not throw leaves a well-formed writer.
  pub call-IsWf :
      (c : Call) {w w' : Writer} → IsGiven c → IsWf w → run host_little c w ≡ ok w' → IsWf w'
  unfolding set_endian set_pos seek seek_root align begin_bits push_limit pop_limit bit truncate
      sint end_bits bytes
  call-IsWf (Call.set_endian e) g wf h = ground arith
  call-IsWf (Call.set_pos n) {w} g wf h = ground (arith, move_to-IsWf n wf)
  call-IsWf (Call.seek n) {w} g wf h = ground (arith, move_to-IsWf n wf)
  call-IsWf (Call.seek_root n) {w} g wf h = ground (arith, move_to-IsWf n wf)
  call-IsWf (Call.write_zeros n) g wf h = write_zeros-IsWf n wf h
  call-IsWf (Call.align n) {w} g wf h =
      write_zeros-IsWf (if w.p % n == 0 then 0 else n - w.p % n) wf
        (refuse_if-eq-ok (n == 0) _ _ h).1
  call-IsWf (Call.begin_bits n) g wf h = ground arith
  call-IsWf (Call.push_limit n) g wf h = ground (arith, room_lem wf)
  call-IsWf (Call.truncate n) {w} {w'} g wf h =
      let same : truncate n w ≡ w' = cc in
      subst IsWf same (
        moved-IsWf (resize n w.d) (if ltb n w.p then n else w.p) wf (ground arith)
          (ground (arith, length-resize n w.d)) (omega (arith, length-resize n w.d))
          (AreBytes-resize n w.d wf.contents))
  call-IsWf (Call.bytes b) {w} g wf h =
      ensured (length b) _ wf h (λ room. copied-IsWf (length b) wf room b g)
  call-IsWf (Call.uint v n) g wf h = uint-IsWf v n wf h
  call-IsWf (Call.bit v n) g wf h = ground arith
  call-IsWf (Call.sint v n) g wf h = uint-IsWf (to_uint64 v) n wf h
  call-IsWf Call.end_bits {w} g wf h =
      let nb : ℕ = (w.bit_total + 7) / 8 in
      ensured nb _ wf (refuse_if-eq-ok _ _ _ h).1 λ room.
        let s = stored-IsWf nb wf room (is_little host_little w.e) (closing w) in
        record {
          within = s.within;
          nested = s.nested;
          filled = s.filled;
          fits = s.fits;
          contents = s.contents;
        }
  call-IsWf Call.pop_limit {w} g wf h = pop_to-IsWf w.limits wf refl h
