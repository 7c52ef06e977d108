-- ===== src/Tests/Processes.antt =====
-- The tests of processes in kernel/tests.c. The addresses of the tasks are chosen by the linker;
-- `blocks` and `fuel` are the fuels of the walks over the heap and over the processes. A test that
-- reads through `NULL` faults.
pub mod Listed
pub mod Linked
pub mod Scheduled
use my_kernel.Common.{ℕ, ◌||◌, List, [], ◌∷◌, ◌==◌, if◌then◌else◌, Bool}
use my_kernel.Common.Run.{Run, ok, fault, ◌>>=◌}
use my_kernel.Process.{
  ready, running, Registers, Kernel, assign, with_state, find_process, remove_process_list,
  save_context, schedule,
}
use my_kernel.Process.Create.{create_process}
use my_kernel.Vga.Output.{Output, text, hex, number}

-- What `test_process_list` prints of the two numbers and of the two searches.
abbrev pub list_report : ℕ → ℕ → Bool → Bool → List Output
list_report first second found gone =
    text "\nTEST: process list\n"
    ∷ text "first pid="
    ∷ number first
    ∷ text "\n"
    ∷ text "second pid="
    ∷ number second
    ∷ text "\n"
    ∷ text (if found then "find_process OK\n" else "find_process FAIL\n")
    ∷ text (if gone then "remove confirmed\n" else "remove failed\n")
    ∷ []

-- `test_process_list` behind the first process, up to its end.
unfoldable pub list_two : ℕ → ℕ → ℕ → ℕ → ℕ → Kernel → Run (List Output × Kernel)
list_two blocks fuel process_entry task2 first k = do
  made ← create_process blocks fuel process_entry task2 0 k
  (if made.0 == 0 then fault else do
    found ← find_process fuel made.0 made.1
    t ← remove_process_list blocks fuel made.0 made.1
    again ← find_process fuel made.0 t
    u ← remove_process_list blocks fuel first t
    ok (
      list_report (k.proc first).pid (made.1.proc made.0).pid (found == made.0) (again == 0),
      record u { current_process = 0; process_list = 0 },
    ))

unfoldable pub test_process_list : ℕ → ℕ → ℕ → ℕ → ℕ → Kernel → Run (List Output × Kernel)
unfolding list_two
test_process_list blocks fuel process_entry task1 task2 k = do
  made ←
      create_process blocks fuel process_entry task1 0
        (record k { process_list = 0; process_number = 1 })
  (if made.1.process_list == 0
      then ok (text "\nTEST: process list\n" ∷ text "failed\n" ∷ [], made.1)
      else list_two blocks fuel process_entry task2 made.1.process_list made.1)

-- `locals` is what the registers on the stack hold before they are set, `at` their address.
unfoldable pub test_save_context :
    ℕ → ℕ → ℕ → ℕ → Registers → ℕ → Kernel → Run (List Output × Kernel)
test_save_context blocks fuel process_entry task1 locals at k = do
  made ← create_process blocks fuel process_entry task1 0 k
  (let regs = record locals { eip = 0x12345678; esp = 0xAAAABBBB; ebp = 0xCCCCDDDD } in
      let t = save_context regs (record made.1 { current_process = made.0 }) in
      if made.0 == 0 then fault else do
        u ← remove_process_list blocks fuel made.0 t
        ok (
          text "\nTEST: Save Context\n"
              ∷ text "Saved regs pointer = "
              ∷ hex (t.proc t.current_process).regs
              ∷ text "\nExpected pointer = "
              ∷ hex at
              ∷ text "\n"
              ∷ [],
          record u { current_process = 0 },
        ))

-- `test_first_process` up to `restore_esp`, which loads the registers that are the last result.
unfoldable pub test_first_process : ℕ → ℕ → ℕ → ℕ → Kernel → Run (List Output × Kernel × Registers)
test_first_process blocks fuel process_entry task1 k = do
  made ← create_process blocks fuel process_entry task1 0 k
  (let t = made.1 in
      if t.current_process == 0
      then fault
      else ok (
        text "\nTEST: First Process\n" ∷ text "Starting process...\n" ∷ [],
        t,
        t.frame (t.proc t.current_process).regs,
      ))

-- The three processes of `test_scheduler` are linked by hand.
unfoldable pub link_three : ℕ → ℕ → ℕ → Kernel → Kernel
unfolding assign
link_three p1 p2 p3 k =
    let f = assign k.proc p1 (record (k.proc p1) { next = p2 }) in
    let g = assign f p2 (record (f p2) { next = p3 }) in
    let h = assign g p3 (record (g p3) { next = 0 }) in
    let f' = assign h p1 (with_state running (h p1)) in
    let g' = assign f' p2 (with_state ready (f' p2)) in
    record k {
      proc = assign g' p3 (with_state ready (g' p3));
      process_list = p1;
      current_process = p1;
    }

-- What `test_scheduler` prints of the numbers of the current, the next and the expected process.
abbrev pub scheduler_report : ℕ → ℕ → ℕ → List Output
scheduler_report current next expected =
    text "\nTEST: Scheduler\n"
    ∷ text "Current PID = "
    ∷ number current
    ∷ text "\nNext PID = "
    ∷ number next
    ∷ text "\nExpected = "
    ∷ number expected
    ∷ text "\n"
    ∷ []

-- `test_scheduler` behind the calls of `create_process`.
unfoldable pub schedule_three : ℕ → ℕ → ℕ → ℕ → ℕ → Kernel → Run (List Output × Kernel)
unfolding link_three
schedule_three blocks fuel p1 p2 p3 k = if p1 == 0 || p2 == 0 || p3 == 0 then fault else do
  next ← schedule fuel (link_three p1 p2 p3 k)
  (let t = link_three p1 p2 p3 k in
      if next == 0 then fault else do
        u ← remove_process_list blocks fuel p1 t
        v ← remove_process_list blocks fuel p2 u
        w ← remove_process_list blocks fuel p3 v
        ok (
          scheduler_report (t.proc p1).pid (t.proc next).pid (t.proc p2).pid,
          record w { current_process = 0; process_list = 0 },
        ))

unfoldable pub test_scheduler : ℕ → ℕ → ℕ → ℕ → ℕ → ℕ → Kernel → Run (List Output × Kernel)
unfolding schedule_three
test_scheduler blocks fuel process_entry task1 task2 task3 k = do
  one ←
      create_process blocks fuel process_entry task1 0
        (record k { process_list = 0; current_process = 0 })
  two ← create_process blocks fuel process_entry task2 0 one.1
  three ← create_process blocks fuel process_entry task3 0 two.1
  schedule_three blocks fuel one.0 two.0 three.0 three.1
