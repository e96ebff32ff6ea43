-- ===== src/Registry.antt =====
-- The choice of the synchronisation module: src/reprompi_bench/sync/process_sync/
-- process_synchronization.c, the two searches of src/reprompi_bench/sync/common/sync_module_helpers.c,
-- and the names and types that the register functions of the modules set.
pub mod Choice
mod Examples
use reprompi_dev.Prelude.{
  ℕ, zero, suc, ◌+◌, Bool, true, false, Option, none, some, List, [], ◌∷◌, get_elem?, ◌==◌,
  if◌then◌else◌,
}
use reprompi_dev.Prelude.Int.{ℤ, pos, negsuc}
use reprompi_dev.Prelude.Text.{Str, same, ascii}

-- `sync_type_t`; the types are those of the `enum` `reprompi_procsync_t`.
pub record SyncType : Type 0 where
  pub name : Str
  pub type : ℕ

-- the loop of `get_sync_type`, which goes on after a match
unfoldable pub sync_type_from : ℤ → List SyncType → Str → ℤ
sync_type_from type [] name = type
sync_type_from type (t ∷ type_list) name =
    sync_type_from (if same name t.name then pos t.type else type) type_list name

-- `get_sync_type`; `none` is NULL.
unfoldable pub get_sync_type : List SyncType → Option Str → ℤ
get_sync_type type_list none = negsuc 0
get_sync_type type_list (some name) = sync_type_from (negsuc 0) type_list name

-- `get_name_from_sync_type`
unfoldable pub name_from : Option Str → List SyncType → ℕ → Option Str
name_from name [] type = name
name_from name (t ∷ type_list) type =
    name_from (if t.type == type then some t.name else name) type_list type

unfoldable pub get_name_from_sync_type : List SyncType → ℕ → Option Str
get_name_from_sync_type type_list type = name_from none type_list type

abbrev pub proc_sync_options : List SyncType
proc_sync_options =
    record { name = ascii "window"; type = 0 }
    ∷ record { name = ascii "MPI_Barrier"; type = 1 }
    ∷ record { name = ascii "dissem_barrier"; type = 2 }
    ∷ record { name = ascii "roundtime"; type = 4 }
    ∷ record { name = ascii "None"; type = 5 }
    ∷ record { name = ascii "Double_MPI_Barrier"; type = 3 }
    ∷ []

-- What a register function sets in a module, beside its functions.
pub record Module : Type 0 where
  pub name : Str
  pub procsync : ℕ

abbrev pub mpibarrier_module : Module
mpibarrier_module = record { name = ascii "MPI_Barrier"; procsync = 1 }

abbrev pub dissem_barrier_module : Module
dissem_barrier_module = record { name = ascii "Dissem_Barrier"; procsync = 2 }

abbrev pub window_module : Module
window_module = record { name = ascii "window"; procsync = 0 }

abbrev pub roundtimesync_module : Module
roundtimesync_module = record { name = ascii "roundtime"; procsync = 4 }

abbrev pub procsync_none_module : Module
procsync_none_module = record { name = ascii "None"; procsync = 5 }

abbrev pub double_mpibarrier_module : Module
double_mpibarrier_module = record { name = ascii "Double_MPI_Barrier"; procsync = 3 }

-- `sync_modules` after `reprompib_register_proc_sync_modules`
abbrev pub sync_modules : List Module
sync_modules =
    mpibarrier_module ∷ dissem_barrier_module ∷ window_module ∷ roundtimesync_module
    ∷ procsync_none_module ∷ double_mpibarrier_module ∷ []

-- the loop of `get_sync_module_index` from index `i` on
unfoldable pub module_index_from : ℕ → List Module → ℤ → ℤ
module_index_from i [] type = negsuc 0
module_index_from i (m ∷ modules) (negsuc n) = negsuc 0
module_index_from i (m ∷ modules) (pos type) =
    let rest = module_index_from (i + 1) modules (pos type) in
    if m.procsync == type then pos i else rest

-- `get_sync_module_index`
unfoldable pub get_sync_module_index : Option Str → ℤ
get_sync_module_index name = module_index_from 0 sync_modules (get_sync_type proc_sync_options name)

abbrev pub module_at : ℤ → Option Module
module_at (negsuc n) = none
module_at (pos index) = get_elem? sync_modules index

-- `reprompib_init_proc_sync_module` up to the call of `init_module`, from the value of --proc-sync;
-- `none` is the exit with an error.
unfoldable pub init_proc_sync_module : Option Str → Option Module
init_proc_sync_module none = module_at (get_sync_module_index (some (ascii "MPI_Barrier")))
init_proc_sync_module (some name) = module_at (get_sync_module_index (some name))
