-- ===== src/Control/Tests.antt =====
-- Runs of the primitives of control flow. The state is how often signals are blocked.
use es_shell_mirror.Prelude.{
  ℕ, zero, suc, ◌+◌, ◌≡◌, refl, true, false, List, [], ◌∷◌, CString, codes, none, leb,
  if◌then◌else◌, Bool, ap, arith, streq,
}
use es_shell_mirror.Syntax.Tree.{Term, mkstr, mkfun, termeq}
use es_shell_mirror.Eval.Base.{World, Result, done, thrown, aborted, Flags, Machine, fail}
use es_shell_mirror.Eval.Walk.{Calls, eval}
use es_shell_mirror.Control.{prim_catch, catch_loop, prim_seq, seq_loop}
use es_shell_mirror.Control.Blocked.{Blocks, IsKept, prim_catch-Blocks}

abbrev word_of : Term CString → CString
word_of (mkstr s) = s
word_of (mkfun c) = c

-- Every primitive throws its list.
abbrev shell : Machine ℕ CString Unit ℕ
shell = record {
  maxevaldepth = 5;
  no_bindings = tt;
  has_bindings = λ b. false;
  getstr = word_of;
  print_term = word_of;
  getclosure = λ t. none;
  glom = λ t b globit w. done [] w;
  glom2 = λ t b w. done ([], []) w;
  validatevar = λ name w. done tt w;
  newbinding = λ name defn b w. done tt w;
  vardef = λ name b defn w. done tt w;
  varpush = λ name defn w. done tt w;
  varpop = λ w. done tt w;
  varlookup = λ name w. done [] w;
  varlookup2 = λ name1 name2 b w. [];
  prim = λ name list b flags w. thrown list w;
  forkexec = λ file list inchild w. done list w;
  isabsolute = λ name. true;
  checkexecutable = λ name w. none;
  sigchk = λ w. done tt w;
  pushes = λ w. 0;
  unwind = λ n w. done tt w;
}

-- A command throws its list.
abbrev throwing : Calls ℕ CString Unit ℕ
throwing = record {
  walk = λ t b flags w. done [] w;
  restart = λ list b funcname flags w. thrown list w;
}

abbrev block : World ℕ → Result CString ℕ Unit
block w = done tt (record w { state = w.state + 1 })

abbrev lowered : ℕ → World ℕ → Result CString ℕ Unit
lowered zero w = aborted
lowered (suc n) w = done tt (record w { state = n })

abbrev unblock : World ℕ → Result CString ℕ Unit
unblock w = lowered w.state w

abbrev start : World ℕ
start = record { evaldepth = 0; state = 3 }

abbrev no_flags : Flags
no_flags = record { eval_inchild = false; eval_throwonfalse = false }

shell-IsKept : IsKept shell throwing block unblock (λ w. w.state)
unfolding eval
shell-IsKept = record {
  depth_apart = λ depth w. refl;
  eval_kept = λ list b flags w. either (leb 5 (w.evaldepth + 1)) list w;
  prim_kept = λ name list b flags w. refl;
  unwind_kept = λ n w. refl;
  blocks = λ w. (record w { state = w.state + 1 }, refl, omega arith);
  unblocks = λ w n h. (record w { state = n }, ap (λ k. lowered k w) h, refl);
}
  where
    either :
        (b : Bool) (list : List (Term CString)) (w : World ℕ)
        → Blocks {S = ℕ}
            (λ w. w.state)
            {A = List (Term CString)}
            w.state
            (if b
              then fail
                  (codes "es:eval")
                  (codes "max-eval-depth exceeded")
                  (record w { evaldepth = w.evaldepth + 1 })
              else thrown list (record w { evaldepth = w.evaldepth + 1 }))
    either true list w = refl
    either false list w = refl

-- The catcher throws in its turn.
caught_again :
    prim_catch shell throwing block unblock 3
      (mkstr (codes "catcher") ∷ mkstr (codes "error") ∷ [])
      no_flags
      start
    ≡ thrown (mkstr (codes "catcher") ∷ mkstr (codes "error") ∷ []) start
unfolding prim_catch catch_loop eval termeq streq
caught_again = refl

in_order :
    prim_seq shell throwing block unblock [] no_flags start ≡ done (mkstr (codes "0") ∷ []) start
unfolding seq_loop
in_order = refl

prim_catch-Blocks_example :
    Blocks {S = ℕ}
      (λ w. w.state)
      3
      (prim_catch shell throwing block unblock 3
        (mkstr (codes "catcher") ∷ mkstr (codes "error") ∷ [])
        no_flags
        start)
prim_catch-Blocks_example =
    prim_catch-Blocks shell throwing block unblock (λ w. w.state) shell-IsKept 3
      (mkstr (codes "catcher") ∷ mkstr (codes "error") ∷ []) no_flags start
