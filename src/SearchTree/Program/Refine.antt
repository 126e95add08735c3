-- ===== src/SearchTree/Program/Refine.antt =====
-- Lemmas that relate calls on a tree and on an association list.
use cpp_art.Base.{ℕ, ◌≡◌, Bool, true, false, refl, ◌∙◌, sym, ap, arith, List, [], ◌∷◌}
use cpp_art.Tree.Key.{Key, IsBytes}
use cpp_art.Tree.Find.{Iterator, end, at, Outcome, done}
use cpp_art.SearchTree.{
  Operations, Laws, InsertResult, refused, accepted, EraseResult, absent, removed,
}
use cpp_art.SearchTree.Program.{
  Call, insert, erase, look_up, get_size, Answer, inserted, erased, found, sized, call,
  answer_first, run, list_find, list_remove, list_size, list_call, list_run, AllBytes,
}
use cpp_art.SearchTree.Program.Lists.{Distinct, find-remove, remove-Distinct, size-remove}

module _ {V T : Type 0} (ops : Operations V T) where
  -- One call, from what the operation returns or finds.
  call-insert :
      (t : T) (x : V) {t' : T} {i : Iterator V} {b : Bool}
      → ops.insert_unique t x ≡ done (t', i, b)
      → call ops t (insert x) ≡ done (t', inserted i b)
  unfolding call
  call-insert t x p = rw (p, call) refl

  call-erase :
      (t : T) (k : Key) {t' : T} {n : ℕ}
      → ops.erase_unique t k ≡ done (t', n)
      → call ops t (erase k) ≡ done (t', erased n)
  unfolding call
  call-erase t k p = rw (p, call) refl

  call_look_up :
      (t : T) (k : Key) {i : Iterator V}
      → ops.find t k ≡ done i
      → call ops t (look_up k) ≡ done (t, found i)
  unfolding call
  call_look_up t k p = rw (p, call) refl

  run_step :
      (t : T) (c : Call V) (cs : List (Call V)) {t' : T} {a : Answer V}
      → call ops t c ≡ done (t', a)
      → run ops t (c ∷ cs) ≡ answer_first a (run ops t' cs)
  unfolding run
  run_step t c cs p = rw (p, run) refl

module _ {V : Type 0} (key_of : V → Key) (key_size : ℕ) where
  list_insert_new :
      (xs : List V) (x : V)
      → list_find key_of key_size xs (key_of x) ≡ end
      → list_call key_of key_size xs (insert x) ≡ (x ∷ xs, inserted (at x) true)
  unfolding list_call
  list_insert_new xs x p = rw (p, list_call) refl

  list_insert_old :
      (xs : List V) (x w : V)
      → list_find key_of key_size xs (key_of x) ≡ at w
      → list_call key_of key_size xs (insert x) ≡ (xs, inserted (at w) false)
  unfolding list_call
  list_insert_old xs x w p = rw (p, list_call) refl

  list_erase_absent :
      (xs : List V) (k : Key)
      → list_find key_of key_size xs k ≡ end
      → list_call key_of key_size xs (erase k) ≡ (xs, erased 0)
  unfolding list_call
  list_erase_absent xs k p = rw (p, list_call) refl

  list_erase_there :
      (xs : List V) (k : Key) (w : V)
      → list_find key_of key_size xs k ≡ at w
      → list_call key_of key_size xs (erase k) ≡ (list_remove key_of key_size xs k, erased 1)
  unfolding list_call
  list_erase_there xs k w p = rw (p, list_call) refl

module _ {V T : Type 0} (key_of : V → Key) (key_size : ℕ) (bytes : (v : V) → IsBytes (key_of v))
    (ops : Operations V T) (laws : Laws key_of key_size ops) where
  -- The list holds what the tree holds.
  record Holds (t : T) (xs : List V) : Type 0 where
    pub valid : laws.Valid t
    pub same : (k : Key) → IsBytes k → ops.find t k ≡ done (list_find key_of key_size xs k)
    pub size : ops.size t ≡ list_size xs
    pub distinct : Distinct key_of key_size xs

  record Answered (t : T) (xs : List V) (c : Call V) : Type 0 where
    pub after : T
    pub returns : call ops t c ≡ done (after, (list_call key_of key_size xs c).1)
    pub holds : Holds after (list_call key_of key_size xs c).0

  inserts :
      (t : T) (xs : List V) (x : V)
      → Holds t xs
      → {o : Outcome (T × Iterator V × Bool)} → o ≡ ops.insert_unique t x
      → InsertResult key_of key_size ops laws.Valid t x o
      → Answered t xs (insert x)
  inserts t xs x h e (refused w o f) =
      let there : list_find key_of key_size xs (key_of x) ≡ at w =
        cc (h.same (key_of x) (bytes x)) in
      let listed = list_insert_old key_of key_size xs x w there in
      record {
        after = t;
        returns = call-insert ops t x (sym e ∙ o) ∙ rw listed refl;
        holds = rw listed h;
      }
  inserts t xs x h e (accepted t' o v c f g) =
      let there : list_find key_of key_size xs (key_of x) ≡ end =
        cc (h.same (key_of x) (bytes x)) in
      let listed = list_insert_new key_of key_size xs x there in
      record {
        after = t';
        returns = call-insert ops t x (sym e ∙ o) ∙ rw listed refl;
        holds = rw listed (record {
          valid = v;
          same = λ k b. unfold list_find in ground (arith, g k b, h.same k b);
          size = unfold list_size in omega (arith, c, h.size);
          distinct = (there, h.distinct);
        });
      }

  erases :
      (t : T) (xs : List V) (k : Key)
      → Holds t xs
      → IsBytes k
      → {o : Outcome (T × ℕ)} → o ≡ ops.erase_unique t k
      → EraseResult key_of key_size ops laws.Valid t k o
      → Answered t xs (erase k)
  erases t xs k h b e (absent o f) =
      let there : list_find key_of key_size xs k ≡ end = cc (h.same k b) in
      let listed = list_erase_absent key_of key_size xs k there in
      record {
        after = t;
        returns = call-erase ops t k (sym e ∙ o) ∙ rw listed refl;
        holds = rw listed h;
      }
  erases t xs k h b e (removed t' w o f v c g) =
      let there : list_find key_of key_size xs k ≡ at w = cc (h.same k b) in
      let listed = list_erase_there key_of key_size xs k w there in
      record {
        after = t';
        returns = call-erase ops t k (sym e ∙ o) ∙ rw listed refl;
        holds = rw listed (record {
          valid = v;
          same = λ j l. ground (arith, g j l, h.same j l, find-remove key_of key_size xs k j);
          size = omega (arith, c, h.size, size-remove key_of key_size xs k w h.distinct there);
          distinct = remove-Distinct key_of key_size xs k h.distinct;
        });
      }

  answers :
      (t : T) (xs : List V) (c : Call V) (cs : List (Call V))
      → Holds t xs
      → AllBytes (c ∷ cs)
      → Answered t xs c
  answers t xs (insert x) cs h b = inserts t xs x h refl (laws.inserts t x h.valid)
  answers t xs (erase k) cs h b = erases t xs k h b.0 refl (laws.erases t k b.0 h.valid)
  answers t xs (look_up k) cs h b = record {
    after = t;
    returns = call_look_up ops t k (h.same k b.0) ∙ unfold list_call in refl;
    holds = unfold list_call in h;
  }
  answers t xs get_size cs h b = record {
    after = t;
    returns = unfold call list_call in ap (λ (n : ℕ). done (t, sized n)) h.size;
    holds = unfold list_call in h;
  }

  rest_of : (c : Call V) (cs : List (Call V)) → AllBytes (c ∷ cs) → AllBytes cs
  rest_of (insert x) cs b = b
  rest_of (erase k) cs b = b.1
  rest_of (look_up k) cs b = b.1
  rest_of get_size cs b = b

  run-Holds :
      (t : T) (xs : List V) (cs : List (Call V))
      → Holds t xs
      → AllBytes cs
      → run ops t cs ≡ done (list_run key_of key_size xs cs)
  unfolding run list_run answer_first
  run-Holds t xs [] h b = refl
  run-Holds t xs (c ∷ cs) h b =
      let a = answers t xs c cs h b in
      run_step ops t c cs a.returns
      ∙ ap (answer_first (list_call key_of key_size xs c).1)
          (run-Holds a.after (list_call key_of key_size xs c).0 cs a.holds (rest_of c cs b))

  -- A program of calls of `insert_unique`,
  -- `erase_unique`, `find` and `size` on a new tree returns, and its answers are those of the same
  -- program on an association list of the values, where only the key bytes of the calls are read.
  pub run-new :
      (cs : List (Call V))
      → AllBytes cs
      → run ops ops.init cs ≡ done (list_run key_of key_size [] cs)
  unfolding list_find list_size
  run-new cs b =
      run-Holds ops.init [] cs
        (record {
          valid = laws.init_valid;
          same = λ k l. laws.init_empty k;
          size = laws.init_size;
          distinct = tt;
        })
        b
