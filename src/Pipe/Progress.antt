-- ===== src/Pipe/Progress.antt =====
-- connection.go, lines 79-150: who wakes a waiting reader or writer.
use large_model_proxy.Base.{
  ◌∙◌, ap, ℕ, zero, suc, ◌*◌, ◌-◌, ◌≤◌, ◌<◌, ◌≡◌, ◌≢◌, refl, List, [], ◌∷◌, length, length-drop,
  take, false, arith, ◌==◌, ◌⊎◌, inl, inr, Bool-cases,
}
use large_model_proxy.Pipe.{
  Pipe, write, read, close_write, close_read, write_waits, wrote, write_closed, read_waits, got,
  eof,
}

-- `k` reads of `n` bytes each.
pub drain : ℕ → ℕ → Pipe → Pipe
drain zero n b = b
drain (suc k) n b = drain k n (read b n).0

length-read : (b : Pipe) (n : ℕ) → length (read b n).0.buf ≡ length b.buf - n
unfolding read
length-read b n = ground (arith, length-drop n b.buf)

read-closed : (b : Pipe) (n : ℕ) → (read b n).0.closed ≡ b.closed
unfolding read
read-closed b n = ground arith

eq-nil_of_length : (xs : List ℕ) → length xs ≡ 0 → xs ≡ []
eq-nil_of_length [] h = refl
eq-nil_of_length (x ∷ xs) h = absurd (omega arith)

write-empty :
    (b : Pipe) (p : List ℕ)
    → length b.buf ≡ 0
    → b.closed ≡ false
    → write b p ≡ (record b { buf = p }, wrote (length p))
unfolding write
write-empty b p h k = ground (arith, eq-nil_of_length b.buf)

write-drain :
    (k n : ℕ) (b : Pipe) (p : List ℕ)
    → length b.buf ≤ k * n
    → b.closed ≡ false
    → (write (drain k n b) p).1 ≡ wrote (length p)
unfolding drain
write-drain zero n b p h c = ap (λ r. r.1) (write-empty b p (omega arith) c)
write-drain (suc k) n b p h c =
    write-drain k n (read b n).0 p (omega (arith, length-read b n)) (read-closed b n ∙ c)

write_waits-open : (b : Pipe) (p : List ℕ) → (write b p).1 ≡ write_waits → b.closed ≡ false
unfolding write
write_waits-open b p h = ground arith

write_waits-nonempty : (b : Pipe) (p : List ℕ) → (write b p).1 ≡ write_waits → 0 < length b.buf
unfolding write
write_waits-nonempty b p h = ground arith

read-nonempty : (b : Pipe) (n : ℕ) → 0 < length b.buf → (read b n).1 ≡ got (take n b.buf)
unfolding read
read-nonempty b n h = ground arith

take-nonempty :
    (n : ℕ) (xs : List ℕ) → 0 < n → 0 < length xs → (c : ℕ) × (cs : List ℕ) × (take n xs ≡ c ∷ cs)
take-nonempty zero xs h k = absurd (omega arith)
take-nonempty (suc n) [] h k = absurd (omega arith)
take-nonempty (suc n) (x ∷ xs) h k = (x, take n xs, refl)

-- A Write that waits is not stuck: the next Read hands out a byte at least, and once enough Reads
-- have emptied the buffer the same Write takes in all its bytes, however long they are.
pub write_waits-progress :
    (b : Pipe) (p : List ℕ) (k n : ℕ)
    → (write b p).1 ≡ write_waits
    → 0 < n
    → length b.buf ≤ k * n
    → ((c : ℕ) × (cs : List ℕ) × ((read b n).1 ≡ got (c ∷ cs)))
      × ((write (drain k n b) p).1 ≡ wrote (length p))
write_waits-progress b p k n h pos enough =
    let some_held = write_waits-nonempty b p h in
    let (c, cs, e) = take-nonempty n b.buf pos some_held in
    (
      (c, cs, read-nonempty b n some_held ∙ ap got e),
      write-drain k n b p enough (write_waits-open b p h),
    )

read_waits-empty :
    (b : Pipe) (n : ℕ) → (read b n).1 ≡ read_waits → (length b.buf ≡ 0) × (b.closed ≡ false)
unfolding read
read_waits-empty b n h = ground arith

-- A Read that waits is not stuck: the next Write of a byte or more takes in all its bytes, and then
-- the same Read hands out the first of them.
pub read_waits-progress :
    (b : Pipe) (p : List ℕ) (n : ℕ)
    → (read b n).1 ≡ read_waits
    → 0 < length p
    → ((write b p).1 ≡ wrote (length p)) × ((read (write b p).0 n).1 ≡ got (take n p))
read_waits-progress b p n h pos =
    let (empty, opened) = read_waits-empty b n h in
    rw (write-empty b p empty opened) (refl, read-nonempty (record b { buf = p }) n pos)

-- Nobody waits on an end that was closed: after closeRead a Write returns the error for a closed
-- pipe, and after closeWrite a Read does not wait, hands out the first of the held bytes, at most as
-- many as it wants, if any are held, and returns the end of the stream if none are.
pub closed_ends :
    (b : Pipe) (p : List ℕ) (n : ℕ)
    → ((write (close_read b) p).1 ≡ write_closed)
      × ((read (close_write b) n).1 ≢ read_waits)
      × (((b.buf ≡ []) × ((read (close_write b) n).1 ≡ eof))
          ⊎ ((0 < length b.buf) × ((read (close_write b) n).1 ≡ got (take n b.buf))))
unfolding read write close_read close_write
closed_ends b p n = elim (Bool-cases (length b.buf == 0)) [
  | inl e ↦ (
    ground arith,
    ground arith,
    inl (eq-nil_of_length b.buf (ground (arith, e)), ground (arith, e)),
  )
  | inr e ↦ (ground arith, ground arith, inr (ground (arith, e), ground (arith, e)))
]
