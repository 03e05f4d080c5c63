-- ===== src/Nm/Active.antt =====
-- `GetActiveNetworks` over the unordered table (src/ara/nm/nm.cpp).
use mathlib.Core.List.{Perm}
use my_auto_sar_ap.Prelude.{
  ℕ, ◌<◌, ◌≡◌, ◌≢◌, inl, inr, refl, sym, subst, ◌∙◌, arith, none, some, List, [], ◌∷◌, ◌++◌, length,
  nat_eq, if◌then◌else◌, ℕ_eq, ℕ_discrete, Bool-cases,
}
use my_auto_sar_ap.Prelude.Map.{lookup, insert, IsDistinct, lookup-map_values}
use my_auto_sar_ap.Prelude.Rehash.{gather, gather-Perm}
use my_auto_sar_ap.Nm.{
  NetworkManagement, NetworkRecord, NetworkId, request_network, release_network, shut_down,
  initialize, new, eth_ipc, eth_external, eth_doip, loopback, asleep, is_normal, active,
  get_active_networks,
}
use my_auto_sar_ap.Nm.RefCount.{
  Op, requests, releases, shuts_down, step, run, outstanding, state_for, IsConfigured,
  request-other, release-other, run-Tracks, initialize-Tracks,
}

-- What the loop does with an entry.
abbrev entry_of : ℕ × NetworkRecord → List NetworkId
entry_of (k, rec) = if is_normal rec.state then rec.id ∷ [] else []

active-gather : (m : List (ℕ × NetworkRecord)) → active m ≡ gather entry_of m
unfolding active
active-gather [] = refl
active-gather ((k, rec) ∷ m) = ground (arith, active-gather m)

request-absent :
    (nm : NetworkManagement) (id k : ℕ)
    → lookup k nm.networks ≡ none
    → lookup k (request_network nm id).0.networks ≡ none
unfolding request_network
request-absent nm id k h = elim (Bool-cases (nat_eq id k)) [
  | inl same ↦ ground arith
  | inr other ↦ request-other nm id k other ∙ h
]

release-absent :
    (nm : NetworkManagement) (id k : ℕ)
    → lookup k nm.networks ≡ none
    → lookup k (release_network nm id).0.networks ≡ none
unfolding release_network
release-absent nm id k h = elim (Bool-cases (nat_eq id k)) [
  | inl same ↦ ground arith
  | inr other ↦ release-other nm id k other ∙ h
]

step-absent :
    (nm : NetworkManagement) (k : ℕ) (op : Op)
    → lookup k nm.networks ≡ none
    → lookup k (step nm op).networks ≡ none
unfolding step shut_down
step-absent nm k (requests id) h = request-absent nm id k h
step-absent nm k (releases id) h = release-absent nm id k h
step-absent nm k shuts_down h = ground (arith, lookup-map_values asleep k nm.networks)

run-absent :
    (k : ℕ) (ops : List Op) (nm : NetworkManagement)
    → lookup k nm.networks ≡ none
    → lookup k (run nm ops).networks ≡ none
unfolding run
run-absent k [] nm h = h
run-absent k (op ∷ ops) nm h = run-absent k ops (step nm op) (step-absent nm k op h)

-- The table that the requests call for.
abbrev expected : List Op → ℕ → ℕ × NetworkRecord
expected ops k =
    (k, record { id = k; state = state_for (outstanding k 0 ops); ref_count = outstanding k 0 ops })

abbrev expected_table : List Op → List (ℕ × NetworkRecord)
expected_table ops =
    expected ops eth_ipc
    ∷ expected ops eth_external
    ∷ expected ops eth_doip
    ∷ expected ops loopback
    ∷ []

-- A configured network that some request holds.
abbrev pub held : List Op → NetworkId → List NetworkId
held ops k = if nat_eq (outstanding k 0 ops) 0 then [] else k ∷ []

abbrev pub held_networks : List Op → List NetworkId
held_networks ops =
    held ops eth_ipc ++ (held ops eth_external ++ (held ops eth_doip ++ held ops loopback))

initialize-absent :
    (k : ℕ)
    → k ≢ eth_ipc
    → k ≢ eth_external
    → k ≢ eth_doip
    → k ≢ loopback
    → lookup k (initialize new).0.networks ≡ none
unfolding initialize new lookup insert
initialize-absent k a b c d = ground arith

module _ (ops : List Op) (small : length ops < 4294967296) where
  abbrev Agrees : ℕ → Type 0
  Agrees k = lookup k (run (initialize new).0 ops).networks ≡ lookup k (expected_table ops)

  tracked :
      (k : ℕ)
      → IsConfigured k
      → lookup k (run (initialize new).0 ops).networks ≡ some (expected ops k).1
  tracked k h = run-Tracks (initialize new).0 k 0 ops (omega arith) (initialize-Tracks k h)

  lookup-expected : (k : ℕ) → Agrees k
  unfolding lookup
  lookup-expected k = elim (ℕ_discrete k eth_ipc) [
    | yes e ↦ subst Agrees (sym e) (tracked eth_ipc (inl refl))
    | no a ↦ elim (ℕ_discrete k eth_external) [
      | yes e ↦ subst Agrees (sym e) (tracked eth_external (inr (inl refl)))
      | no b ↦ elim (ℕ_discrete k eth_doip) [
        | yes e ↦ subst Agrees (sym e) (tracked eth_doip (inr (inr (inl refl))))
        | no c ↦ elim (ℕ_discrete k loopback) [
          | yes e ↦ subst Agrees (sym e) (tracked loopback (inr (inr (inr refl))))
          | no d ↦ ground (arith, run-absent k ops (initialize new).0 (initialize-absent k a b c d))
        ]
      ]
    ]
  ]

gather-expected : (ops : List Op) → gather entry_of (expected_table ops) ≡ held_networks ops
gather-expected ops = ground arith

-- After `Initialize` and any sequence of fewer than 2^32 requests, releases and shutdowns, and whatever
-- the order of the table is, `GetActiveNetworks` lists, in some order and each once, the configured
-- networks of which some request is outstanding.
pub get_active_networks-held :
    (q : NetworkManagement) (ops : List Op)
    → length ops < 4294967296
    → IsDistinct q.networks
    → ((k : ℕ) → lookup k q.networks ≡ lookup k (run (initialize new).0 ops).networks)
    → Perm (get_active_networks q) (held_networks ops)
unfolding get_active_networks lookup
get_active_networks-held q ops small distinct same =
    let listed =
      gather-Perm entry_of q.networks (expected_table ops) distinct
        (refl, (refl, (refl, (refl, tt)))) (λ k. same k ∙ lookup-expected ops small k) in
    subst (λ l. Perm l (held_networks ops)) (sym (active-gather q.networks))
      (subst (λ l. Perm (gather entry_of q.networks) l) (gather-expected ops) listed)
