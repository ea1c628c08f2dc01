-- ===== src/Gateway/Send/Queue.antt =====
-- internal/gateway/session.go: what a queue holds.
use lurkspire.Prelude.{
  ℕ, zero, suc, ◌+◌, ◌-◌, ◌≤◌, ◌≡◌, refl, sym, ap, ◌∙◌, inl, inr, ltb, append-nil, Bool-cases, List,
  [], ◌∷◌, ◌++◌, false, arith, length, drop, length-append, length-drop, append_assoc,
}
use lurkspire.Gateway.State.{Session}
use lurkspire.Gateway.Send.{enqueue, queue_size}

-- The frames, one after the other.
abbrev pub enqueue_each : List (List ℕ) → Session → Session
enqueue_each [] s = s
enqueue_each (b ∷ bs) s = enqueue_each bs (enqueue b s)

-- The newest frames of a list, as many as the queue takes.
abbrev pub newest : List (List ℕ) → List (List ℕ)
newest bs = drop (length bs - queue_size) bs

drop-append_le :
    (n : ℕ) (xs ys : List (List ℕ)) → n ≤ length xs → drop n (xs ++ ys) ≡ drop n xs ++ ys
drop-append_le zero xs ys h = refl
drop-append_le (suc n) [] ys h = absurd (omega arith)
drop-append_le (suc n) (x ∷ xs) ys h = drop-append_le n xs ys (omega arith)

drop-nil : (n : ℕ) → drop {A = List ℕ} n [] ≡ []
drop-nil zero = refl
drop-nil (suc n) = refl

drop-drop : (m n : ℕ) (xs : List (List ℕ)) → drop m (drop n xs) ≡ drop (n + m) xs
drop-drop m zero xs = let z : m ≡ 0 + m = omega arith in ap (λ k. drop k xs) z
drop-drop m (suc n) [] = drop-nil m ∙ sym (drop-nil (suc n + m))
drop-drop m (suc n) (x ∷ xs) =
    let next : suc n + m ≡ suc (n + m) = omega arith in rw next (drop-drop m n xs)

-- Keeping the newest frames as they come keeps the newest of all.
newest-append : (xs ys : List (List ℕ)) → newest (newest xs ++ ys) ≡ newest (xs ++ ys)
newest-append xs ys =
    let k : ℕ = length xs - queue_size in
    let kept : drop k xs ++ ys ≡ drop k (xs ++ ys) = sym (drop-append_le k xs ys (omega arith)) in
    let count : k + (length (drop k xs ++ ys) - queue_size) ≡ length (xs ++ ys) - queue_size =
      omega (arith, length-append (drop k xs) ys, length-drop k xs, length-append xs ys) in
    ap (drop (length (drop k xs ++ ys) - queue_size)) kept
    ∙ (drop-drop (length (drop k xs ++ ys) - queue_size) k (xs ++ ys)
        ∙ ap (λ n. drop n (xs ++ ys)) count)

newest-short : (xs : List (List ℕ)) → length xs ≤ queue_size → newest xs ≡ xs
newest-short xs h = let z : length xs - queue_size ≡ 0 = omega (arith, h) in ap (λ n. drop n xs) z

enqueue_lem :
    (b : List ℕ) (s : Session)
    → s.closed ≡ false
    → length s.write_q ≤ queue_size
    → ((enqueue b s).write_q ≡ newest (s.write_q ++ (b ∷ [])))
      × ((enqueue b s).closed ≡ false)
      × (length (enqueue b s).write_q ≤ queue_size)
unfolding enqueue
enqueue_lem b s e h = elim (Bool-cases (ltb (length s.write_q) queue_size)) [
  | inl t ↦
      let n : length (s.write_q ++ (b ∷ [])) ≤ queue_size =
        ground (arith, length-append s.write_q (b ∷ [])) in
      rw (e, t, enqueue) (sym (newest-short _ n), refl, n)
  | inr t ↦
      let full : length s.write_q ≡ queue_size = ground arith in
      let one : length (s.write_q ++ (b ∷ [])) - queue_size ≡ 1 =
        omega (arith, full, length-append s.write_q (b ∷ [])) in
      rw (e, t, enqueue)
        (
          sym (
              ap (λ n. drop n (s.write_q ++ (b ∷ []))) one
              ∙ drop-append_le 1 s.write_q (b ∷ []) (omega (arith, full))),
          refl,
          omega (arith, length-append (drop 1 s.write_q) (b ∷ []), length-drop 1 s.write_q, full),
        )
]

-- A session that is open, sent any frames, holds the newest 128 of what it held and of these, in
-- order; it loses the oldest ones only.
pub enqueue_each-newest :
    (bs : List (List ℕ)) (s : Session)
    → s.closed ≡ false
    → length s.write_q ≤ queue_size
    → ((enqueue_each bs s).write_q ≡ newest (s.write_q ++ bs))
      × (length (enqueue_each bs s).write_q ≤ queue_size)
enqueue_each-newest [] s e h =
    (sym (ap newest (append-nil s.write_q) ∙ newest-short s.write_q h), h)
enqueue_each-newest (b ∷ bs) s e h =
    let (q, c, n) = enqueue_lem b s e h in
    let (rest, m) = enqueue_each-newest bs (enqueue b s) c n in
    (
      rest
          ∙ (ap (λ q. newest (q ++ bs)) q
              ∙ (newest-append (s.write_q ++ (b ∷ [])) bs
                  ∙ ap newest (append_assoc s.write_q (b ∷ []) bs))),
      m,
    )

-- A queue keeps within its channel, whatever the session is sent.
pub enqueue-bound :
    (b : List ℕ) (s : Session)
    → length s.write_q ≤ queue_size
    → length (enqueue b s).write_q ≤ queue_size
enqueue-bound b s h = elim (Bool-cases s.closed) [
  | inl e ↦ unfold enqueue in rw (e, enqueue) h
  | inr e ↦ (enqueue_lem b s e h).2
]
