-- ===== src/Input/Tests.antt =====
-- Runs of the input buffer.
use es_shell_mirror.Prelude.{◌≡◌, refl, false, [], ◌∷◌, codes, some, arith}
use es_shell_mirror.Input.State.{
  Input, byte, eof, thrown, chunk, at_end, read_error, interrupted, fill_with, fdfill, fetch,
  get_loop, read_size, get, unget, runfd_input, runstring_input,
}
use es_shell_mirror.Input.Refine.{Takes}
use es_shell_mirror.Input.Get.{get-Takes}
use es_shell_mirror.Input.Unget.{Pushes, unget-Pushes}

-- A null, then a read that was interrupted, then "x".
abbrev script : Input
script = runfd_input (chunk 0 [] ∷ interrupted ∷ chunk b'x' (codes "y") ∷ at_end ∷ []) false false

abbrev string_input : Input
string_input = record (runstring_input (codes "ab") false false) { buf = 1 }

script_first :
    get script
    ≡ some (byte b'x', record script { content = codes "xy"; buf = 1; reads = at_end ∷ [] })
unfolding get get_loop fetch fdfill fill_with read_size
script_first = refl

back : unget (byte b'a') string_input ≡ some (record string_input { buf = 0 })
unfolding unget
back = refl

end_of_error :
    (in_ : Input) × (get (runfd_input (read_error ∷ []) false false) ≡ some (thrown, in_))
    × (get in_ ≡ some (eof, in_))
unfolding get get_loop fetch fdfill fill_with read_size
end_of_error = (_, refl, refl)

get-Takes_example : Takes (byte b'x' ∷ byte b'y' ∷ []) (get script)
get-Takes_example = get-Takes script (refl, omega arith)

unget-Pushes_example : Pushes eof string_input (unget eof string_input)
unget-Pushes_example = unget-Pushes eof string_input (refl, omega arith) (omega arith)
