-- ===== src/Lane/Invariant.antt =====
-- src/bridge/core/Lane.cpp: what holds of the tables between two calls.
use levilamina_rust_loader.Base.{
  ℕ, ◌+◌, ◌≤◌, ◌<◌, ◌≡◌, ◌≢◌, refl, String, Bool, false, Option, none, some, ◌==◌, nat_eq,
  string_eq, arith, count,
}
use levilamina_rust_loader.Base.Assoc.{find, count_values, IsMap}
use levilamina_rust_loader.Lane.Tables.{Lane, Lease, Call, retains, releases, State, init, on_lane}

abbrev pub is_retain : ℕ → Call → Bool
is_retain id (retains i) = i == id
is_retain id (releases i) = false

abbrev pub is_release : ℕ → Call → Bool
is_release id (retains i) = false
is_release id (releases i) = i == id

abbrev pub retain_count : ℕ → State → ℕ
retain_count id s = count (is_retain id) s.calls

abbrev pub release_count : ℕ → State → ℕ
release_count id s = count (is_release id) s.calls

abbrev pub lease_count : ℕ → State → ℕ
lease_count id s = count_values (on_lane id) s.lease_table

-- A lane in the table: its name leads to it, its flag is up, it counts its leases, and its provider
-- has been handed one reference back for each lease that ended.
pub record IsLive (s : State) (id : ℕ) (lane : Lane) : Type 0 where
  pub positive : 0 < id
  pub used : id < s.next_lane
  pub named : find lane.name s.by_name ≡ some id
  pub cell_is_own : lane.alive ≡ id
  pub has_retain : 0 < lane.desc.retain
  pub has_release : 0 < lane.desc.release
  pub counted : lane.leases ≡ lease_count id s
  pub balanced : retain_count id s ≡ release_count id s + lease_count id s

abbrev pub flag_of : ℕ → State → ℕ
flag_of id s = elim (find id s.cells) [ none ↦ 0 | some c ↦ c.flag ]

abbrev pub name_of : ℕ → State → Option String
name_of id s = elim (find id s.lanes) [ none ↦ none | some lane ↦ some lane.name ]

-- An id whose lane was taken down: the flag is down, and each reference was released once, the one
-- of the publication included.
pub record IsRetired (s : State) (id : ℕ) : Type 0 where
  pub dark : flag_of id s ≡ 0
  pub settled : release_count id s ≡ retain_count id s + 1

pub record IsUnused (s : State) (id : ℕ) : Type 0 where
  pub no_cell : find id s.cells ≡ none
  pub no_retain : retain_count id s ≡ 0
  pub no_release : release_count id s ≡ 0

pub record Inv (s : State) : Type 0 where
  pub lanes_map : IsMap s.lanes
  pub names_map : IsMap s.by_name
  pub leases_map : IsMap s.lease_table
  pub started : 0 < s.next_lane
  pub live : (id : ℕ) (lane : Lane) → find id s.lanes ≡ some lane → IsLive s id lane
  pub lit : (id : ℕ) (lane : Lane) → find id s.lanes ≡ some lane → flag_of id s ≡ 1
  pub indexed : (name : String) (id : ℕ) → find name s.by_name ≡ some id → name_of id s ≡ some name
  pub lease_used : (l : ℕ) (lease : Lease) → find l s.lease_table ≡ some lease → l < s.next_lease
  pub held :
      (l : ℕ) (lease : Lease)
      → find l s.lease_table ≡ some lease
      → find lease.lane_id s.lanes ≢ none
  pub retired : (id : ℕ) → 0 < id → id < s.next_lane → find id s.lanes ≡ none → IsRetired s id
  pub unused : (id : ℕ) → s.next_lane ≤ id → IsUnused s id

pub init-Inv : Inv init
unfolding init find
init-Inv = record {
  lanes_map = tt;
  names_map = tt;
  leases_map = tt;
  started = omega arith;
  live = λ id lane h. absurd (cc);
  lit = λ id lane h. absurd (cc);
  indexed = λ name id h. absurd (cc);
  lease_used = λ l lease h. absurd (cc);
  held = λ l lease h. absurd (cc);
  retired = λ id p h _. absurd (omega arith);
  unused = λ id h. record { no_cell = refl; no_retain = refl; no_release = refl };
}
