-- ===== src/Registry/Examples.antt =====
-- The choice of a synchronisation module for concrete names.
use reprompi_dev.Prelude.{ℕ, ◌≡◌, ◌≢◌, ◌⊎◌, refl, Option, none, some, get_elem?}
use reprompi_dev.Prelude.Text.{ascii}
use reprompi_dev.Registry.{
  SyncType, Module, proc_sync_options, mpibarrier_module, init_proc_sync_module, get_sync_type,
  get_name_from_sync_type,
}

-- without the option, MPI_Barrier
default_module : init_proc_sync_module none ≡ some mpibarrier_module
unfolding init_proc_sync_module reprompi_dev.Registry.get_sync_module_index
    reprompi_dev.Registry.module_index_from reprompi_dev.Registry.get_sync_type
    reprompi_dev.Registry.sync_type_from reprompi_dev.Prelude.Text.same
default_module = refl
