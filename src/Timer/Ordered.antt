-- ===== src/Timer/Ordered.antt =====
-- timer/timer.go: one goroutine at a time, which calls every function once, in order.
use nbio.Base.{
  ◌≢◌, ℕ, ◌+◌, ◌≡◌, ◌⊎◌, inl, inr, refl, sym, ap, ◌∙◌, List, [], ◌∷◌, ◌++◌, length, length-append,
  append-nil, append_assoc, arith, false, is_nil, if◌then◌else◌, take, take-append_length,
}
use nbio.Timer.{
  Runner, checking, calling, Timer, async, Step, add, check_end, check_next, call_done, Reach,
  start, later,
}

abbrev index : Runner → ℕ
index (checking i) = i
index (calling i f) = i

-- No goroutine, and all has been called.
record Quiet (t : Timer) : Type 0 where
  no_runner : t.runners ≡ []
  empty : t.async_list ≡ []
  all : t.called ≡ t.submitted

-- One goroutine, that has called `done` of the list; `before` was called in earlier lists.
record Busy (t : Timer) : Type 0 where
  runner : Runner
  before : List ℕ
  done : List ℕ
  todo : List ℕ
  one : t.runners ≡ runner ∷ []
  whole : t.async_list ≡ done ++ todo
  some_task : is_nil t.async_list ≡ false
  at : index runner ≡ length done
  calls : t.called ≡ before ++ done
  asked : t.submitted ≡ before ++ t.async_list

single :
    (r s : Runner) (xs ys : List Runner) → r ∷ [] ≡ xs ++ s ∷ ys → (xs ≡ []) × (ys ≡ []) × (r ≡ s)
single r s [] ys e = (refl, cc, cc)
single r s (x ∷ []) ys e = absurd cc
single r s (x ∷ y ∷ xs) ys e = absurd cc

none_in : (s : Runner) (xs ys : List Runner) → [] ≢ xs ++ s ∷ ys
none_in s [] ys e = cc
none_in s (x ∷ xs) ys e = cc

-- The goroutine that takes a step is the only one.
the_one :
    (t : Timer) (c : Busy t) (s : Runner) (xs ys : List Runner)
    → t.runners ≡ xs ++ s ∷ ys
    → (xs ≡ []) × (ys ≡ []) × (c.runner ≡ s)
the_one t c s xs ys e = single c.runner s xs ys (sym c.one ∙ e)

abbrev Orderly : Timer → Type 0
Orderly t = Quiet t ⊎ Busy t

add-Busy : (t : Timer) (f : ℕ) → Orderly t → Busy (async f t)
add-Busy t f (inl q) = record {
  runner = checking 0;
  before = t.submitted;
  done = [];
  todo = f ∷ [];
  one =
      ap (λ l. if is_nil l then checking 0 ∷ t.runners else t.runners) q.empty
      ∙ ap (λ l. checking 0 ∷ l) q.no_runner;
  whole = ap (λ l. l ++ f ∷ []) q.empty;
  some_task = ap (λ l. is_nil (l ++ f ∷ [])) q.empty;
  at = refl;
  calls = q.all ∙ sym (append-nil t.submitted);
  asked = ap (λ l. t.submitted ++ (l ++ f ∷ [])) (sym q.empty);
}
add-Busy t f (inr c) = record {
  runner = c.runner;
  before = c.before;
  done = c.done;
  todo = c.todo ++ f ∷ [];
  one = ap (λ b. if b then checking 0 ∷ t.runners else t.runners) c.some_task ∙ c.one;
  whole = ap (λ l. l ++ f ∷ []) c.whole ∙ append_assoc c.done c.todo (f ∷ []);
  some_task = still t.async_list c.some_task;
  at = c.at;
  calls = c.calls;
  asked = ap (λ l. l ++ f ∷ []) c.asked ∙ append_assoc c.before t.async_list (f ∷ []);
}
  where
    still : (l : List ℕ) → is_nil l ≡ false → is_nil (l ++ f ∷ []) ≡ false
    still [] e = refl
    still (x ∷ l) e = refl

end-Quiet :
    (t : Timer) (c : Busy t) (i : ℕ) (xs ys : List Runner)
    → t.runners ≡ xs ++ checking i ∷ ys
    → i ≡ length t.async_list
    → Quiet (record t { async_list = []; runners = xs ++ ys })
end-Quiet t c i xs ys e h =
    let (no_xs, no_ys, same) = the_one t c (checking i) xs ys e in
    let no_todo : c.todo ≡ [] =
      nothing c.todo
        (omega (arith, h, ap index same, c.at, ap length c.whole, length-append c.done c.todo)) in
    record {
      no_runner = ap (λ l. l ++ ys) no_xs ∙ no_ys;
      empty = refl;
      all =
          c.calls
          ∙ ap (λ l. c.before ++ l)
              (sym (append-nil c.done) ∙ ap (λ l. c.done ++ l) (sym no_todo) ∙ sym c.whole)
          ∙ sym c.asked;
    }
  where
    nothing : (l : List ℕ) → length l ≡ 0 → l ≡ []
    nothing [] e = refl
    nothing (x ∷ l) e = absurd (omega (arith, e))

next-Busy :
    (t : Timer) (c : Busy t) (i f : ℕ) (xs ys : List Runner) (before behind : List ℕ)
    → t.runners ≡ xs ++ checking i ∷ ys
    → t.async_list ≡ before ++ f ∷ behind
    → i ≡ length before
    → Busy (record t { runners = xs ++ calling (i + 1) f ∷ ys; called = t.called ++ f ∷ [] })
next-Busy t c i f xs ys before behind e h k =
    let (no_xs, no_ys, same) = the_one t c (checking i) xs ys e in
    let equal_length : length before ≡ length c.done = omega (arith, k, ap index same, c.at) in
    let as_done : before ≡ c.done =
      sym (take-append_length before (f ∷ behind))
      ∙ ap (λ n. take n (before ++ f ∷ behind)) equal_length
      ∙ ap (take (length c.done)) (sym h ∙ c.whole)
      ∙ take-append_length c.done c.todo in
    record {
      runner = calling (i + 1) f;
      before = c.before;
      done = c.done ++ f ∷ [];
      todo = behind;
      one = ap (λ l. l ++ calling (i + 1) f ∷ ys) no_xs ∙ ap (λ l. calling (i + 1) f ∷ l) no_ys;
      whole = h ∙ ap (λ l. l ++ f ∷ behind) as_done ∙ sym (append_assoc c.done (f ∷ []) behind);
      some_task = c.some_task;
      at = omega (arith, ap index same, c.at, length-append c.done (f ∷ []));
      calls = ap (λ l. l ++ f ∷ []) c.calls ∙ append_assoc c.before c.done (f ∷ []);
      asked = c.asked;
    }

done-Busy :
    (t : Timer) (c : Busy t) (i f : ℕ) (xs ys : List Runner)
    → t.runners ≡ xs ++ calling i f ∷ ys
    → Busy (record t { runners = xs ++ checking i ∷ ys })
done-Busy t c i f xs ys e =
    let (no_xs, no_ys, same) = the_one t c (calling i f) xs ys e in
    record {
      runner = checking i;
      before = c.before;
      done = c.done;
      todo = c.todo;
      one = ap (λ l. l ++ checking i ∷ ys) no_xs ∙ ap (λ l. checking i ∷ l) no_ys;
      whole = c.whole;
      some_task = c.some_task;
      at = sym (ap index same) ∙ c.at;
      calls = c.calls;
      asked = c.asked;
    }

Step-Orderly : {t u : Timer} → Step t u → Orderly t → Orderly u
Step-Orderly {t} (add f) o = inr (add-Busy t f o)
Step-Orderly {t} (check_end i xs ys e h) (inl q) =
    absurd (none_in (checking i) xs ys (sym q.no_runner ∙ e))
Step-Orderly {t} (check_end i xs ys e h) (inr c) = inl (end-Quiet t c i xs ys e h)
Step-Orderly {t} (check_next i f xs ys before behind e h k) (inl q) =
    absurd (none_in (checking i) xs ys (sym q.no_runner ∙ e))
Step-Orderly {t} (check_next i f xs ys before behind e h k) (inr c) =
    inr (next-Busy t c i f xs ys before behind e h k)
Step-Orderly {t} (call_done i f xs ys e) (inl q) =
    absurd (none_in (calling i f) xs ys (sym q.no_runner ∙ e))
Step-Orderly {t} (call_done i f xs ys e) (inr c) = inr (done-Busy t c i f xs ys e)

Reach-Orderly : {t : Timer} → Reach t → Orderly t
Reach-Orderly start = inl (record { no_runner = refl; empty = refl; all = refl })
Reach-Orderly (later r st) = Step-Orderly st (Reach-Orderly r)

-- However calls of Async and the steps of its goroutines take turns: there is no goroutine, and the
-- functions that were called are those that Async was given, each once and in order; or there is
-- one goroutine, and those that were called are the first part of them.
pub Reach-Called :
    (t : Timer)
    → Reach t
    → ((t.runners ≡ []) × (t.called ≡ t.submitted))
      ⊎ ((r : Runner) × (rest : List ℕ) × (t.runners ≡ r ∷ []) × (t.called ++ rest ≡ t.submitted))
Reach-Called t r = in_order (Reach-Orderly r)
  where
    in_order :
        Orderly t
        → ((t.runners ≡ []) × (t.called ≡ t.submitted))
          ⊎ ((r : Runner) × (rest : List ℕ) × (t.runners ≡ r ∷ [])
              × (t.called ++ rest ≡ t.submitted))
    in_order (inl q) = inl (q.no_runner, q.all)
    in_order (inr c) = inr (
      c.runner,
      c.todo,
      c.one,
      ap (λ l. l ++ c.todo) c.calls
          ∙ append_assoc c.before c.done c.todo
          ∙ ap (λ l. c.before ++ l) (sym c.whole)
          ∙ sym c.asked,
    )
