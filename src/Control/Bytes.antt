-- ===== src/Control/Bytes.antt =====
-- Reading and writing parts of the data of an event, as Control.Heartbeat fills it in.
use vscp_mqtt_daemon.Prelude.{
  ℕ, zero, suc, ◌+◌, ◌-◌, ◌≤◌, min, List, [], ◌∷◌, ◌++◌, length, take, drop, replicate, ◌≡◌, refl,
  arith, ap, ◌∙◌,
}
use vscp_mqtt_daemon.Control.Heartbeat.{write_at}

abbrev pub slice : ℕ → ℕ → List ℕ → List ℕ
slice offset n ds = take n (drop offset ds)

pub length-write_at : (o : ℕ) (bs ds : List ℕ) → length (write_at o bs ds) ≡ length ds
unfolding write_at
length-write_at o bs [] = refl
length-write_at zero [] (d ∷ ds) = refl
length-write_at zero (b ∷ bs) (d ∷ ds) = ap suc (length-write_at zero bs ds)
length-write_at (suc o) bs (d ∷ ds) = ap suc (length-write_at o bs ds)

-- What was written is read back.
pub slice-write_at :
    (o : ℕ) (bs ds : List ℕ)
    → o + length bs ≤ length ds
    → slice o (length bs) (write_at o bs ds) ≡ bs
unfolding write_at
slice-write_at zero [] [] h = refl
slice-write_at zero [] (d ∷ ds) h = refl
slice-write_at zero (b ∷ bs) [] h = absurd (omega arith)
slice-write_at zero (b ∷ bs) (d ∷ ds) h = ap (◌∷◌ b) (slice-write_at zero bs ds (omega arith))
slice-write_at (suc o) bs [] h = absurd (omega arith)
slice-write_at (suc o) bs (d ∷ ds) h = slice-write_at o bs ds (omega arith)

-- A part before or behind what was written.
pub slice_before :
    (p n o : ℕ) (bs ds : List ℕ) → p + n ≤ o → slice p n (write_at o bs ds) ≡ slice p n ds
unfolding write_at
slice_before p n o bs [] h = refl
slice_before zero zero o bs (d ∷ ds) h = refl
slice_before zero (suc n) zero bs (d ∷ ds) h = absurd (omega arith)
slice_before zero (suc n) (suc o) bs (d ∷ ds) h =
    ap (◌∷◌ d) (slice_before zero n o bs ds (omega arith))
slice_before (suc p) n zero bs (d ∷ ds) h = absurd (omega arith)
slice_before (suc p) n (suc o) bs (d ∷ ds) h = slice_before p n o bs ds (omega arith)

-- A part of the data lies within its size.
pub slice-take : (p n m : ℕ) (ds : List ℕ) → p + n ≤ m → slice p n (take m ds) ≡ slice p n ds
slice-take zero zero m ds h = refl
slice-take zero (suc n) zero ds h = absurd (omega arith)
slice-take zero (suc n) (suc m) [] h = refl
slice-take zero (suc n) (suc m) (d ∷ ds) h = ap (◌∷◌ d) (slice-take zero n m ds (omega arith))
slice-take (suc p) n zero ds h = absurd (omega arith)
slice-take (suc p) n (suc m) [] h = refl
slice-take (suc p) n (suc m) (d ∷ ds) h = slice-take p n m ds (omega arith)

take-replicate : (m n : ℕ) → m ≤ n → take {A = ℕ} m (replicate n 0) ≡ replicate m 0
take-replicate zero n h = refl
take-replicate (suc m) zero h = absurd (omega arith)
take-replicate (suc m) (suc n) h = ap (◌∷◌ 0) (take-replicate m n (omega arith))

write_nothing : (ds : List ℕ) → write_at 0 [] ds ≡ ds
unfolding write_at
write_nothing [] = refl
write_nothing (d ∷ ds) = refl

-- Writing into zeros from the start on.
pub take-write_at_zeros :
    (m n : ℕ) (bs : List ℕ)
    → length bs ≤ m
    → m ≤ n
    → take m (write_at 0 bs (replicate n 0)) ≡ bs ++ replicate (m - length bs) 0
unfolding write_at
take-write_at_zeros m n [] h k =
    ap (take m) (write_nothing (replicate n 0))
    ∙ (take-replicate m n k ∙ ap (λ j. replicate j 0) (omega arith))
take-write_at_zeros zero n (b ∷ bs) h k = absurd (omega arith)
take-write_at_zeros (suc m) zero (b ∷ bs) h k = absurd (omega arith)
take-write_at_zeros (suc m) (suc n) (b ∷ bs) h k = ap (◌∷◌ b) (
    take-write_at_zeros m n bs (omega arith) (omega arith)
    ∙ ap (λ j. bs ++ replicate j 0) (omega arith))

pub length-take : (n : ℕ) (xs : List ℕ) → length (take n xs) ≡ min n (length xs)
length-take zero xs = omega arith
length-take (suc n) [] = omega arith
length-take (suc n) (x ∷ xs) = omega (arith, length-take n xs)
