-- ===== src/Encoder/Correct/Frame.antt =====
-- encoder.go: what `encodeArray`, `encodeMap` and `encodeStruct` have in common, the allocation of the
-- array before their loop and the correction of the size behind it.
use go_libddwaf.Base.{
  ℕ, zero, suc, ◌-◌, ◌≤◌, ◌≡◌, refl, sym, ◌∙◌, ap, false, Option, some, List, [], ◌∷◌, ◌++◌, arith,
  length, take, take_all, replicate, tests, ltb→le, ltb, ◌==◌, Bool-cases, inl, inr,
}
use go_libddwaf.WafObject.{WafObject, zero_object}
use go_libddwaf.Memory.{Memory, objects, next_address}
use go_libddwaf.Memory.Growth.{Grows, Same-refl, Grows-Keeps, Grows-allocate}
use go_libddwaf.RefPool.{Store, keep_array, Container, container_type, alloc_waf_array}
use go_libddwaf.Encoder.{Setting, State}
use go_libddwaf.Encoder.Containers.{capacity_of, new_array, fix_size}
use go_libddwaf.Encoder.Filled.{Filled, Filled-start}
use go_libddwaf.Tree.{Branches, Child, branches, count_branches}
use go_libddwaf.Tree.Holds.{ArrayAt, Elems, Elems-Same, Elems-append}
use go_libddwaf.Encoder.Correct.{memory_of, SameKey, Loops}

-- What an array object and a map object have in common, as they represent children.
abbrev pub Parts : ℕ → Memory → WafObject → Branches → Type 0
Parts lo m o b =
    (os : List WafObject) × (o.nb_entries ≡ count_branches b)
    × ArrayAt lo m o.value os
    × Elems lo m os b

count-branches : (l : List Child) → count_branches (branches l) ≡ length l
count-branches [] = refl
count-branches (c ∷ l) = ap suc (count-branches l)

-- The object of a loop that ran over block `k`.
loop-Parts :
    {P : WafObject → Type 0} {k cap : ℕ} {m : Memory} {more : List Child} {r : Option ℕ × State}
    (o : WafObject)
    → o.value ≡ suc k
    → Loops P k cap 0 m [] more r
    → Parts k (memory_of r.1) (fix_size r.0 o) (branches (take cap more))
loop-Parts {k} {cap} {more} {r} o e l =
    let z : cap - 0 ≡ cap = omega arith in
    let filled = l.filled in
    rw (← z, l.index)
      (
        filled.front ++ filled.back,
        sym (count-branches (take (cap - 0) more)),
        inr (k, e, omega arith, filled.at),
        Elems-append k _ filled.front filled.back (take (cap - 0) more) (
            Elems-Same (omega arith) (Same-refl _ _) (branches (take (cap - 0) more)) filled.front
              filled.children),
      )

-- A loop over `cap` slots that adds the first of `more`, or does nothing where there is no slot.
pub record Fills (P : WafObject → Type 0) (cap : ℕ) (more : List Child)
    (loop : ℕ → State → Option ℕ × State) : Type 0 where
  pub none_fits :
      cap ≡ 0
      → (a : ℕ) (s : State) → ((loop a s).0 ≡ some 0) × (memory_of (loop a s).1 ≡ memory_of s)
  pub some_fit :
      (k : ℕ) (s : State)
      → Filled P k cap 0 (memory_of s) []
      → Loops P k cap 0 (memory_of s) [] more (loop (suc k) s)

-- The object, its array and its size, with such a loop in between.
abbrev pub whole :
    WafObject → Container → ℕ → (ℕ → State → Option ℕ × State) → State → WafObject × State
whole obj typ cap loop s =
    let (o, t) = new_array obj typ cap s in let (n, u) = loop o.value t in (fix_size n o, u)

pub record WholeRight (typ : Container) (obj : WafObject) (l : List Child) (m : Memory)
    (r : WafObject × State) : Type 0 where
  pub grows : Grows m (memory_of r.1)
  pub key : SameKey obj r.0
  pub type : r.0.type ≡ container_type typ
  pub parts : Parts (length m) (memory_of r.1) r.0 (branches l)

whole_empty :
    {P : WafObject → Type 0} {more : List Child} {loop : ℕ → State → Option ℕ × State}
    (typ : Container) (obj : WafObject) (s : State)
    → Fills P 0 more loop
    → WholeRight typ obj [] (memory_of s) (whole obj typ 0 loop s)
unfolding alloc_waf_array
whole_empty typ obj s f =
    let (e, same) = f.none_fits refl 0 s in
    record {
      grows = rw same (Same-refl 0 (memory_of s));
      key = rw e (refl, refl);
      type = rw e;
      parts = rw e ([], refl, inl refl, tt);
    }

pub alloc_some :
    (obj : WafObject) (typ : Container) (cap : ℕ) (st : Store)
    → alloc_waf_array obj typ (suc cap) st ≡ (
      record obj {
        type = container_type typ;
        nb_entries = suc cap;
        value = next_address st.memory;
      },
      keep_array st (suc cap),
    )
unfolding alloc_waf_array
alloc_some obj typ cap st = let e : (suc cap == 0) ≡ false = ground arith in rw e

whole_some :
    {P : WafObject → Type 0} {more : List Child} {loop : ℕ → State → Option ℕ × State} (cap : ℕ)
    (typ : Container) (obj : WafObject) (s : State)
    → P zero_object
    → Fills P (suc cap) more loop
    → WholeRight typ obj (take (suc cap) more) (memory_of s) (whole obj typ (suc cap) loop s)
unfolding keep_array
whole_some cap typ obj s p f =
    let start = Filled-start (suc cap) (memory_of s) p in
    let st = keep_array s.store (suc cap) in
    let l = f.some_fit (length (memory_of s)) (record s { store = st }) start in
    rw (alloc_some obj typ cap s.store) (record {
      grows =
          Grows-Keeps (omega arith)
            (Grows-allocate (objects (replicate (suc cap) zero_object)) (memory_of s)) l.keeps;
      key = rw l.index (refl, refl);
      type = rw l.index;
      parts =
          loop-Parts
            (record obj {
              type = container_type typ;
              nb_entries = suc cap;
              value = next_address s.store.memory;
            })
            refl l;
    })

pub whole_lem :
    {P : WafObject → Type 0} {more : List Child} {loop : ℕ → State → Option ℕ × State} (cap : ℕ)
    (typ : Container) (obj : WafObject) (s : State)
    → P zero_object
    → Fills P cap more loop
    → WholeRight typ obj (take cap more) (memory_of s) (whole obj typ cap loop s)
whole_lem zero typ obj s p f = whole_empty typ obj s f
whole_lem (suc cap) typ obj s p f = whole_some cap typ obj s p f

-- The capacity limits no more than the maximum does.
pub take-capacity :
    (g : Setting) (n : ℕ) (l : List Child)
    → length l ≤ n
    → take (capacity_of g n) l ≡ take g.container_max_size l
take-capacity g n l h = elim (Bool-cases (ltb g.container_max_size n)) [
  | inl e ↦ rw e
  | inr e ↦
      rw e (take_all n l h ∙ sym (take_all g.container_max_size l (omega (tests, h, ltb→le _ _ e))))
]
