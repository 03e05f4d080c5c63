-- ===== src/Phm/Abstract.antt =====
-- The contents of `PlatformHealthManagement` without the order of the table's entries, as a quotient,
-- and runs in which the table is rehashed at any time (src/ara/phm/phm.cpp).
use mathlib.Core.Quot
use mathlib.Core.Quot.{Quot, Quot-set}
use my_auto_sar_ap.Prelude.{ℕ, ◌≡◌, refl, sym, ap, ◌∙◌, String, Bool, List, [], ◌∷◌, String_eq}
use my_auto_sar_ap.Prelude.Map.{IsDistinct}
use my_auto_sar_ap.Phm.{
  PlatformHealthManagement, GlobalSupervisionStatus, AliveSupervisionConfig, register_entity,
  get_global_status,
}
use my_auto_sar_ap.Phm.Global.{Op, step, run}
use my_auto_sar_ap.Phm.Contents.{Same, get_global_status-same}
use my_auto_sar_ap.Phm.Contents.Steps.{step-Same, step-IsDistinct, register-Same}

abbrev pub Table : Type 0
Table = (p : PlatformHealthManagement) × IsDistinct p.entities

abbrev pub Contents : Type 0
Contents = Quot (λ (a b : Table). Same a.0 b.0)

abbrev pub contents : Table → Contents
contents = Quot.mk

unfoldable pub status : Contents → GlobalSupervisionStatus
status =
    Quot.lift (hlevel) (λ t. get_global_status t.0)
      (λ a b h. get_global_status-same a.0 b.0 a.1 b.1 h)

-- Whether the registration of an id is accepted.
unfoldable pub accepts : String → AliveSupervisionConfig → ℕ → Contents → Bool
accepts id conf now =
    Quot.lift (hlevel) (λ t. (register_entity t.0 id conf now).1)
      (λ a b h. (register-Same a.0 b.0 id h conf now).1)

unfoldable pub apply : Op → Contents → Contents
apply op =
    Quot.lift Quot-set (λ t. contents (step t.0 op, step-IsDistinct t.0 op t.1))
      (λ a b h. Quot.sound (step-Same a.0 b.0 op h))

unfoldable pub apply_all : List Op → Contents → Contents
apply_all [] c = c
apply_all (op ∷ ops) c = apply_all ops (apply op c)

-- Calls in a row, with rehashes in between: another order of the same entries.
pub data Runs : PlatformHealthManagement → List Op → PlatformHealthManagement → Type 0 where
  done : {p : PlatformHealthManagement} → Runs p [] p
  calls :
      {p q : PlatformHealthManagement} {ops : List Op} (op : Op)
      → Runs (step p op) ops q
      → Runs p (op ∷ ops) q
  rehashes :
      {p r q : PlatformHealthManagement} {ops : List Op}
      → Same p r
      → IsDistinct r.entities
      → Runs r ops q
      → Runs p ops q

Runs-contents :
    {p q : PlatformHealthManagement} {ops : List Op} (d : IsDistinct p.entities)
    → Runs p ops q
    → (e : IsDistinct q.entities) × (contents (q, e) ≡ apply_all ops (contents (p, d)))
unfolding apply_all apply
Runs-contents d done = (d, refl)
Runs-contents {p} d (calls op rest) = Runs-contents (step-IsDistinct p op d) rest
Runs-contents d (rehashes {ops} same e rest) =
    let (f, eq) = Runs-contents e rest in (f, eq ∙ ap (apply_all ops) (sym (Quot.sound same)))

plain : (p : PlatformHealthManagement) (ops : List Op) → Runs p ops (run p ops)
unfolding run
plain p [] = done
plain p (op ∷ ops) = calls op (plain (step p op) ops)

-- From any table in which each id stands once, after any calls: the global status, and the answer to
-- any registration, are those of the table whose entries are never moved, however the entries were
-- rearranged between the calls.
pub Runs-status :
    (p q : PlatformHealthManagement) (ops : List Op)
    → IsDistinct p.entities
    → Runs p ops q
    → (get_global_status q ≡ get_global_status (run p ops))
      × ((id : String) (conf : AliveSupervisionConfig) (now : ℕ)
          → (register_entity q id conf now).1 ≡ (register_entity (run p ops) id conf now).1)
unfolding status accepts
Runs-status p q ops d moved =
    let (e, eq) = Runs-contents d moved in
    let (f, eq') = Runs-contents d (plain p ops) in
    let same = eq ∙ sym eq' in (ap status same, λ id conf now. ap (accepts id conf now) same)
