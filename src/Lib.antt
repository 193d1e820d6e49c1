-- ===== src/Lib.antt =====
-- The es shell: a model of its core, and the theorems that make it correct.
--
-- The program reads commands, parses them into a tree, and evaluates the tree: words are "glommed"
-- into lists of strings with quoting flags, wildcards are matched, variables live in hashed
-- dictionaries, and the output of commands is split into fields. What is modelled, by file:
--
--   Prelude: Boolean tests, lists and C strings (lists of bytes without the NUL) and signed numbers.
--   ListOps: list.c, the operations on linked lists.
--   Dict: dict.c and `streq2` of util.c. `Table` has the open-addressing table with its probing loops,
--     growth and removal by a marker; the other files prove the invariant and the lookup law. A
--     table is a list of slots; assignments in place give the new table. The probing loops run on
--     fuel, the size of the table, which is enough since a valid table has an empty slot. The size
--     stays below 2 ^ 30 in the theorems, so `int` and `unsigned long` do not wrap around but in
--     the hash.
--   Match: match.c and the wildcard tests of glob.c. A quoting is one of the two flag pointers QUOTED
--     and UNQUOTED, or a string of flags. `Class` reads a character class,
--     `Spec` says what a pattern matches. Where a class outruns its quoting, the source reads past an array; the
--     theorems leave these patterns out.
--   Split: split.c and `bqinput` of prim-io.c. The file's static variables are one record, which is
--     passed along. `read` is the list of chunks it gives.
--   Syntax: the trees of es.h, the terms of term.c, and the rewriting of syntax.c that the grammar
--     calls; a null pointer is a tree of its own, a failed assertion is `none`. `redirect`,
--     which queues here documents, and `mkpass` are not modelled.
--   Glob: glob.c, the expansion of wildcards, with the directories and `qsort` as parameters, and
--     without the expansion of a tilde.
--   Glom: glom.c, the expansion of words and the arithmetic. An outcome is a value, a failure with
--     its message, or what C leaves undefined, which the hardware may trap. The functions on trees
--     call each other on the same tree, so they are computed together (`Eval`); variables, closures,
--     commands, floats and the conversions of the C library are the fields of a record.
--   Status: status.c, truth and exit codes, with `strtol` as a parameter.
--   Env: the conversion `%W` of conv.c, which exports a list, and the start of `importvar` of var.c, for
--     values without an escape.
--   Conv: `%F` and `%N` of conv.c, which protect the names of variables in the environment, and `%S`,
--     which quotes a string.
--   Scan: token.c. The variables of the file are one record with the characters to come, which takes
--     the place of the reader's buffer: EOF is the empty list. `strtoll`, `strtod` and `isalnum` are
--     parameters. The loop at the label `top` runs on the length of the input, and takes a
--     character in each round. The numbers of descriptors do not overflow, where the source has int; a number in an escape wraps around
--     at 2 ^ 32.
--   Vars: var.c, over the dictionaries of Dict, and the unwinding of pushed variables in `throw` of except.c.
--     An exception is an outcome with its state. The evaluation of settors is a parameter. A table
--     has room (Dict/Room) where it stays below 2 ^ 30 slots after a number of growths.
--   Eval: eval.c. `walk` and the part of `eval` behind its label `restart` call each other through a record
--     of functions, which `calls_within` makes for a depth of calls, the fuel; running out of it is an
--     outcome of its own, since a script may run forever. Words, variables, bindings and processes are the fields of a record: the
--     chains of bindings are shared and assigned to, so they live in its state. The handlers of
--     except.c are functions on outcomes. A for loop runs on the number of its values.
--   Heredoc: the reading of a here document in heredoc.c, over the characters to come. Its loops run on the
--     length of the input, and each round takes a character or ends them.
--   Input: input.c, the buffer of a source: its refills, the characters taken and those put back. The reads of a
--     descriptor are a list of outcomes; `get` runs on the number of the characters to come. `Refine` says what a
--     source stands for. The scanner of Scan has that list of characters in its place.
--   Fd: fd.c, over a table of open files. Pointers to descriptors are names of cells. `State` has the reserved
--     cells and what is done with the deferred operations, `Defer` how they are put off. What `dup` takes
--     is a parameter, and so is the limit below which the kernel has descriptors, at which `dup2` fails.
--   Print: print.c. `State` has the buffer and its writing, `Convert` the conversions and the driver. The loop of
--     `fmtappend` runs on the length of the string and one round more, for a buffer that is full. Digits are
--     made on fuel, the number itself. There is no run where the argument cannot hold the number, or where
--     the negation of the least one overflows. The conversion of floats is not modelled.
--   Signal: signal.c. A handler runs between two steps of the shell. The kernel and the table of names are
--     parameters; `initsignals` is not modelled.
--   Opt: opt.c, the options of a primitive.
--   Control: prim-ctl.c, over `eval` of Eval. The rounds of `forever` and `catch` are bounded by fuel, since
--     they may never end.
--   Proc: proc.c, the list of processes. What `fork` and `wait` return is a list of outcomes.
--
-- Not modelled: `forkexec`, the making of the environment (`mkenv`) and the reading of closures from strings;
-- the collector (gc.c), whose effect is that addresses change and nothing else; readline, the prompts
-- and the loop of commands in input.c; the grammar (parse.y), whose parser is generated; the
-- primitives that are calls of the system, and the start of the shell.
pub mod Prelude
pub mod ListOps
pub mod Syntax
pub mod Dict
pub mod Match
pub mod Split
pub mod Glob
pub mod Glom
pub mod Status
pub mod Env
pub mod Conv
pub mod Scan
pub mod Vars
pub mod Eval
pub mod Heredoc
pub mod Input
pub mod Fd
pub mod Print
pub mod Signal
pub mod Opt
pub mod Control
pub mod Proc
