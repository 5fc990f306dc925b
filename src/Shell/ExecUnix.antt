-- ===== src/Shell/ExecUnix.antt =====
-- internal/shellh/exec_unix.go with `KillAll` of runner.go: the signals that are sent.
use easyworker.Base.{
  ℕ, ◌≡◌, ◌∙◌, refl, sym, ap, ◌⊎◌, Bool, true, false, ◌||◌, List, [], ◌∷◌, ◌++◌, ◌==◌,
  if◌then◌else◌,
}
use easyworker.Shell.Run.Children.{World, Careful, at_start, live, contains, contains_iff}

-- Who gets SIGKILL: the process group of an id, or the process alone.
pub data Target : Type 0 where
  group process : ℕ → Target

-- `treeHandle`: the id, 0 before the attach.
pub record TreeHandle : Type 0 where
  pub pid : ℕ

unfoldable pub attach : ℕ → TreeHandle → TreeHandle
attach pid h = record h { pid = pid }

unfoldable pub kill_process_tree : ℕ → List Target
kill_process_tree pid = group pid ∷ process pid ∷ []

-- `terminate`
unfoldable pub terminate : TreeHandle → List Target
terminate h = if h.pid == 0 then [] else group h.pid ∷ process h.pid ∷ []

-- `KillAll`, over the keys of `childs`.
unfoldable pub kill_all : List ℕ → List Target
unfolding kill_process_tree
kill_all [] = []
kill_all (pid ∷ childs) = kill_process_tree pid ++ kill_all childs

-- Whether the group of an id is among the targets, and the process.
abbrev pub hits_group : ℕ → List Target → Bool
hits_group q [] = false
hits_group q (group p ∷ ts) = p == q || hits_group q ts
hits_group q (process p ∷ ts) = hits_group q ts

abbrev pub hits_process : ℕ → List Target → Bool
hits_process q [] = false
hits_process q (group p ∷ ts) = hits_process q ts
hits_process q (process p ∷ ts) = p == q || hits_process q ts

kill_all-contains :
    (q : ℕ) (childs : List ℕ)
    → (hits_group q (kill_all childs) ≡ contains q childs)
      × (hits_process q (kill_all childs) ≡ contains q childs)
unfolding kill_all contains
kill_all-contains q [] = (refl, refl)
kill_all-contains q (p ∷ childs) =
    let rest = kill_all-contains q childs in
    (ap (λ b. p == q || b) rest.0, ap (λ b. p == q || b) rest.1)

-- On unix, as long as no process gets an id that a handler has yet to untrack: KillAll signals the group
-- and the process of every command that runs and was tracked; and where it signals a group, a command
-- with that id runs, or its process was waited for and its handler has yet to untrack it.
pub kill_all_reaches :
    (w : World) (q : ℕ)
    → Careful at_start w
    → ((w.process q ≡ live)
        → (hits_group q (kill_all w.childs) ≡ true) × (hits_process q (kill_all w.childs) ≡ true))
      × ((hits_group q (kill_all w.childs) ≡ true) → ((w.process q ≡ live) ⊎ (w.waited q ≡ 1)))
kill_all_reaches w q careful =
    let hits = kill_all-contains q w.childs in
    let known = contains_iff w q careful in
    (
      λ running. (hits.0 ∙ known.0 running, hits.1 ∙ known.0 running),
      λ hit. known.1 (sym hits.0 ∙ hit),
    )
