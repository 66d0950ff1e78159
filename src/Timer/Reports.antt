-- ===== src/Timer/Reports.antt =====
-- timer/node_timer.go: the time that a child reports reaches the sum of every ancestor.
use go_libddwaf.Base.{
  ℕ, ◌+◌, ◌^◌, ◌≤◌, ◌<◌, ◌≡◌, refl, sym, ap, ◌∙◌, some, List, [], ◌∷◌, arith, Text, text_eq, Dict,
  lookup, insert, lookup-insert_self, text_key, Bool-cases, inl, inr,
}
use mathlib.Core.Path.{ap₂}
use go_libddwaf.Base.Int.{ℤ, pos, negsuc, ◌+ℤ◌, wrap64, pos_part}
use go_libddwaf.Timer.Nodes.{Node, add_time, child_stopped, reported, sum_from, sum_spent}

-- No time is negative.
abbrev pub AllPos : Dict Text ℤ → Type 0
AllPos [] = Unit {0}
AllPos ((name, pos n) ∷ times) = AllPos times
AllPos ((name, negsuc n) ∷ times) = ⊥

abbrev pub total_time : Dict Text ℤ → ℕ
total_time [] = 0
total_time ((name, value) ∷ times) = pos_part value + total_time times

add_pos : (n d : ℕ) → n + d < 2 ^ 63 → wrap64 (pos n +ℤ pos d) ≡ pos (n + d)
unfolding wrap64 ◌+ℤ◌
add_pos n d b = ground arith

sum_from-total :
    (n : ℕ) (m : Dict Text ℤ)
    → AllPos m
    → n + total_time m < 2 ^ 63
    → sum_from (pos n) m ≡ pos (n + total_time m)
sum_from-total n [] h b = ap pos (omega arith)
sum_from-total n ((name, pos v) ∷ m) h b =
    ap (λ s. sum_from s m) (add_pos n v (omega arith))
    ∙ (sum_from-total (n + v) m h (omega arith) ∙ ap pos (omega arith))
sum_from-total n ((name, negsuc v) ∷ m) h b = absurd h

lookup-AllPos :
    (name : Text) (m : Dict Text ℤ) (v : ℤ)
    → AllPos m
    → lookup name m ≡ some v
    → (n : ℕ) × (v ≡ pos n) × (n ≤ total_time m)
unfolding lookup
lookup-AllPos name [] v h e = absurd (ground arith)
lookup-AllPos name ((k, negsuc w) ∷ m) v h e = absurd h
lookup-AllPos name ((k, pos w) ∷ m) v h e = elim (Bool-cases (text_eq k name)) [
  | inl q ↦ (w, ground (arith, q, e), omega arith)
  | inr q ↦
      let (n, en, b) = lookup-AllPos name m v h (ground (arith, q, e)) in (n, en, omega (arith, b))
]

insert-AllPos : (name : Text) (w : ℕ) (m : Dict Text ℤ) → AllPos m → AllPos (insert name (pos w) m)
unfolding insert
insert-AllPos name w [] h = tt
insert-AllPos name w ((k, negsuc v) ∷ m) h = absurd h
insert-AllPos name w ((k, pos v) ∷ m) h = elim (Bool-cases (text_eq k name)) [
  | inl q ↦ simp q h
  | inr q ↦ simp q (insert-AllPos name w m h)
]

total_time-insert :
    (name : Text) (w : ℕ) (m : Dict Text ℤ) (v : ℤ)
    → lookup name m ≡ some v
    → total_time (insert name (pos w) m) + pos_part v ≡ total_time m + w
unfolding insert lookup
total_time-insert name w [] v e = absurd (ground arith)
total_time-insert name w ((k, u) ∷ m) v e = elim (Bool-cases (text_eq k name)) [
  | inl q ↦ ground (arith, q, e)
  | inr q ↦
      let rest = total_time-insert name w m v (ground (arith, q, e)) in simp q (omega (arith, rest))
]

-- A node that knows the component, and has room for the time.
pub record HasRoom (name : Text) (d : ℕ) (m : Dict Text ℤ) : Type 0 where
  pub value : ℤ
  pub known : lookup name m ≡ some value
  pub not_negative : AllPos m
  pub room : total_time m + d < 2 ^ 63

sum_from-add_time :
    (name : Text) (d : ℕ) (m : Dict Text ℤ)
    → HasRoom name d m
    → sum_from (pos 0) (add_time name (pos d) m) ≡ pos (total_time m + d)
unfolding add_time
sum_from-add_time name d m h =
    let (n, e, b) = lookup-AllPos name m h.value h.not_negative h.known in
    let known : lookup name m ≡ some (pos n) = h.known ∙ ap some e in
    let sum = total_time-insert name (n + d) m (pos n) known in
    rw (known, add_pos n d (omega (arith, b, h.room)))
      (sum_from-total 0 (insert name (pos (n + d)) m) (insert-AllPos name (n + d) m h.not_negative)
          (omega (arith, sum, h.room))
        ∙ ap pos (omega (arith, sum)))

-- What is left of the room.
pub HasRoom-add_time :
    (name : Text) (a b : ℕ) (m : Dict Text ℤ)
    → HasRoom name (a + b) m
    → HasRoom name b (add_time name (pos a) m)
unfolding add_time
HasRoom-add_time name a b m h =
    let (n, e, low) = lookup-AllPos name m h.value h.not_negative h.known in
    let known : lookup name m ≡ some (pos n) = h.known ∙ ap some e in
    rw (known, add_pos n a (omega (arith, low, h.room)))
      (record {
        value = pos (n + a);
        known = lookup-insert_self name (pos (n + a)) m;
        not_negative = insert-AllPos name (n + a) m h.not_negative;
        room = omega (arith, total_time-insert name (n + a) m (pos n) known, h.room);
      })

abbrev pub sums : List Node → List ℤ
sums [] = []
sums (n ∷ nodes) = sum_spent n ∷ sums nodes

abbrev pub raised : ℕ → List ℤ → List ℤ
raised d [] = []
raised d (z ∷ l) = (z +ℤ pos d) ∷ raised d l

-- Every ancestor has room, under the name that the child below it has.
abbrev pub AllHaveRoom : Text → ℕ → List Node → Type 0
AllHaveRoom name d [] = Unit {0}
AllHaveRoom name d (n ∷ parents) = HasRoom name d n.times × AllHaveRoom n.component_name d parents

exact_sum : (a d : ℕ) → pos (a + d) ≡ pos a +ℤ pos d
unfolding ◌+ℤ◌
exact_sum a d = ground arith

-- The sum of one node.
pub sum_spent-add_time :
    (name : Text) (d : ℕ) (n : Node)
    → HasRoom name d n.times
    → sum_spent (record n { times = add_time name (pos d) n.times }) ≡ sum_spent n +ℤ pos d
unfolding sum_spent
sum_spent-add_time name d n h =
    let before = sum_from-total 0 n.times h.not_negative (omega (arith, h.room)) in
    let exact : pos (total_time n.times + d) ≡ pos (0 + total_time n.times) +ℤ pos d =
      ap pos (omega arith) ∙ exact_sum (0 + total_time n.times) d in
    sum_from-add_time name d n.times h ∙ (exact ∙ ap (λ z. z +ℤ pos d) (sym before))

-- If every ancestor knows its child's component, and its times are not negative and with the child's
-- below 2^63 in sum, then a stopped child's time is added to the `SumSpent` of every ancestor up to
-- the root.
pub sums-child_stopped :
    (name : Text) (d : ℕ) (parents : List Node)
    → AllHaveRoom name d parents
    → (after : List Node) × (child_stopped name (pos d) parents ≡ some after)
      × (sums after ≡ raised d (sums parents))
unfolding child_stopped
sums-child_stopped name d [] h = ([], refl, refl)
sums-child_stopped name d (n ∷ parents) (h, hs) =
    let (after, e, s) = sums-child_stopped n.component_name d parents hs in
    (
      record n { times = add_time name (pos d) n.times } ∷ after,
      ap₂ (λ v. reported v (record n { times = add_time name (pos d) n.times })) h.known e,
      ap₂ ◌∷◌ (sum_spent-add_time name d n h) s,
    )
