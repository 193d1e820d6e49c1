-- ===== src/Eval/Tests.antt =====
-- Runs of the evaluation.
use es_shell_mirror.Prelude.{
  ℕ, ◌≡◌, ◌<◌, refl, true, false, List, [], ◌∷◌, CString, codes, Option, none, some, map, arith,
  streq,
}
use es_shell_mirror.Syntax.Tree.{Tree, n_word, n_prim, Term, mkstr, mkfun, termeq}
use es_shell_mirror.Eval.Base.{World, Result, done, thrown, Flags, Machine, mkbinding}
use es_shell_mirror.Eval.Bind.{bind_vars, bindargs}
use es_shell_mirror.Eval.Walk.{
  LoopGroup, eval, for_rounds, for_round, bind_round, bind_group, advance, all_null, total_values,
}
use es_shell_mirror.Eval.Dispatch.{calls_within, restart, by_function, run_checked, finish}
use es_shell_mirror.Eval.Steady.{Balanced, IsSteady}
use es_shell_mirror.Eval.Depth.{eval-Balanced}
use es_shell_mirror.Eval.Deal.{
  add_all, all_values, names_of, OneEach, bind_vars-dealt, params_of, bindargs-bind_vars,
}
use es_shell_mirror.Eval.Rounds.{Ends, IsEnding, for_rounds-Ends}

abbrev Chain : Type 0
Chain = List (CString × List (Term CString))

abbrev words_of : Tree ℕ → List (Term CString)
words_of (n_word s) = mkstr s ∷ []
words_of t = []

abbrev closure_of : Term CString → Option (Tree ℕ × Chain)
closure_of (mkstr s) = none
closure_of (mkfun c) = some (n_prim c, [])

abbrev word_of : Term CString → CString
word_of (mkstr s) = s
word_of (mkfun c) = c

-- Every name is absolute, and a command returns its list.
abbrev sample : Machine ℕ CString Chain ℕ
sample = record {
  maxevaldepth = 5;
  no_bindings = [];
  has_bindings = λ b. false;
  getstr = word_of;
  print_term = word_of;
  getclosure = closure_of;
  glom = λ t b globit w. done (words_of t) w;
  glom2 = λ t b w. done (words_of t, []) w;
  validatevar = λ name w. done tt w;
  newbinding = λ name defn b w. done ((name, defn) ∷ b) w;
  vardef = λ name b defn w. done tt w;
  varpush = λ name defn w. done tt w;
  varpop = λ w. done tt w;
  varlookup = λ name w. done [] w;
  varlookup2 = λ name1 name2 b w. [];
  prim = λ name list b flags w. done list w;
  forkexec = λ file list inchild w. done list w;
  isabsolute = λ name. true;
  checkexecutable = λ name w. none;
  sigchk = λ w. done tt w;
  pushes = λ w. 0;
  unwind = λ n w. done tt w;
}

sample-IsSteady : IsSteady sample
sample-IsSteady = record {
  glom_kept = λ t b globit k w h. h;
  glom2_kept = λ t b k w h. h;
  validatevar_kept = λ name k w h. h;
  newbinding_kept = λ name defn b k w h. h;
  vardef_kept = λ name b defn k w h. h;
  varpush_kept = λ name defn k w h. h;
  varpop_kept = λ k w h. h;
  varlookup_kept = λ name k w h. h;
  prim_kept = λ name list b flags k w h. h;
  forkexec_kept = λ file list inchild k w h. h;
  sigchk_kept = λ k w h. h;
}

abbrev start : World ℕ
start = record { evaldepth = 2; state = 0 }

abbrev quiet : Flags
quiet = record { eval_inchild = false; eval_throwonfalse = false }

abbrev words : List (Term CString)
words = mkstr (codes "/bin/echo") ∷ mkstr (codes "a") ∷ []

eval-Balanced_example : Balanced 2 (eval sample (calls_within sample 2) words [] quiet start)
eval-Balanced_example = eval-Balanced sample sample-IsSteady 2 words [] quiet start

echoes : eval sample (calls_within sample 2) words [] quiet start ≡ done words start
unfolding eval calls_within restart by_function run_checked finish
echoes = refl

bind_vars-dealt_example :
    (dealt : Chain) × (bind_vars sample
        (mkbinding sample)
        (mkstr (codes "x") ∷ mkstr (codes "y") ∷ [])
        words
        []
        start
      ≡ add_all sample (mkbinding sample) dealt [] start)
    × (names_of dealt ≡ map word_of (mkstr (codes "x") ∷ mkstr (codes "y") ∷ []))
    × (all_values dealt ≡ words)
    × OneEach dealt
bind_vars-dealt_example =
    bind_vars-dealt sample (mkbinding sample) (mkstr (codes "x")) (mkstr (codes "y") ∷ []) words []
      start

bindargs-bind_vars_example :
    bindargs sample (params_of sample (map word_of words)) words [] start
    ≡ bind_vars sample (mkbinding sample) words words [] start
bindargs-bind_vars_example = bindargs-bind_vars sample words words [] start

-- The body throws "continue" in every round.
abbrev restless : Chain → World ℕ → Result CString ℕ (List (Term CString))
restless b w = thrown (mkstr (codes "continue") ∷ []) w

abbrev one_group : List (LoopGroup CString)
one_group = (record { names = codes "x" ∷ codes "y" ∷ []; values = words }) ∷ []

restless-IsEnding : IsEnding sample restless
restless-IsEnding = record {
  validatevar_quiet = λ name w. tt;
  newbinding_quiet = λ name defn b w. tt;
  unwind_ends = λ n w. tt;
  sigchk_ends = λ w. tt;
  body_ends = λ b w. tt;
}

enough : total_values sample one_group < 3
unfolding total_values
enough = omega arith

for_rounds-Ends_example : Ends (for_rounds sample 3 restless one_group [] words start)
for_rounds-Ends_example =
    for_rounds-Ends sample restless restless-IsEnding 3 one_group [] words start (omega arith, tt)
      enough

looped : for_rounds sample 3 restless one_group [] words start ≡ done [] start
unfolding for_rounds for_round bind_round bind_group mkbinding advance all_null termeq streq
looped = refl
