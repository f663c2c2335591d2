-- ===== src/Buffers/Tests.antt =====
-- Runs of the buffer code on small inputs.
use aurora_compositor.Base.{
  ◌≡◌, ◌<◌, inl, refl, true, false, [], ◌∷◌, List, none, some, arith, ◌==◌, ◌&&◌, get_or,
}
use aurora_compositor.Buffers.{
  Store, Op, released, committed_at, attach, copy, destruct, destroy, commit, empty_store, assign,
  construct, get_buffer, destroy_buffer, commit_ref, deref_releases, set_committed, set_destroyed,
  ref, deref, step, run,
}
use aurora_compositor.Buffers.Counting.{IsCounted, count_refs}
use aurora_compositor.Buffers.Steps.{
  History, done, then_, run-IsCounted, run_counted, run_never_dangles, empty_store-IsCounted,
}

-- Two references to one buffer, which is committed.
abbrev shared_ops : List Op
shared_ops = attach true 7 ∷ attach false 8 ∷ copy 1 0 ∷ commit 0 ∷ destruct 0 ∷ []

abbrev all_ops : List Op
all_ops =
    attach true 7 ∷ attach false 8 ∷ copy 1 0 ∷ commit 0 ∷ destruct 0 ∷ destruct 1 ∷ destroy 7 ∷ []

abbrev shared : Store
shared = (run shared_ops empty_store).0

all_released : (run all_ops empty_store).1 ≡ committed_at 0 ∷ released 0 ∷ []
unfolding run step assign construct get_buffer destroy_buffer commit_ref deref_releases
    set_committed set_destroyed ref deref
all_released = refl

last_deleted : ((run all_ops empty_store).0.buffers 0).deleted ≡ true
unfolding run step assign construct get_buffer destroy_buffer commit_ref deref_releases
    set_committed set_destroyed ref deref
last_deleted = refl

shared-History : History shared_ops empty_store
unfolding run step assign construct get_buffer destroy_buffer commit_ref deref_releases
    set_committed set_destroyed ref deref
shared-History = then_ tt (then_ tt (then_ (omega arith) (then_ tt (then_ (omega arith) done))))

shared-IsCounted : IsCounted shared
shared-IsCounted = run-IsCounted shared_ops empty_store shared-History empty_store-IsCounted

run_counted_example :
    ((shared.buffers 0).ref_count ≡ count_refs shared.refs 0)
    × ((shared.buffers 0).deleted ≡ (shared.buffers 0).destroyed && (count_refs shared.refs 0 == 0))
run_counted_example = run_counted shared_ops 0 shared-History

shared_second : get_or shared.refs 1 none ≡ some 0
unfolding run step assign construct get_buffer destroy_buffer commit_ref deref_releases
    set_committed set_destroyed ref deref
shared_second = refl

run_never_dangles_example : ((shared.buffers 0).deleted ≡ false) × (0 < shared.next)
run_never_dangles_example = run_never_dangles shared_ops 1 0 0 shared-History (inl shared_second)
