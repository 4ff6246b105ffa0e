-- ===== src/Engines/QemuKeeping.antt =====
-- A theorem on an image of engines/qemu/image/manager.go.
use taskcluster_worker.Prelude.{ℕ, ◌+◌, ◌≤◌, ◌≡◌, ◌≢◌, ◌⊎◌, true, false}
use taskcluster_worker.Engines.QemuImages.{loading, ready, failed, own, Served}

record Sound (threads : ℕ) (s : Served) : Type 0 where
  counted : s.image.resource.ref_count ≡ s.waiting + s.instances + s.refused
  bounded : s.waiting + s.instances + s.refused ≤ threads
  still_loading :
      s.image.loaded ≡ loading
      → (s.image.registered ≡ false) × (s.instances ≡ 0) × (s.refused ≡ 0) × (s.image.folder ≡ true)
  has_failed :
      s.image.loaded ≡ failed
      → (s.image.registered ≡ false)
        × (s.instances ≡ 0)
        × (s.refused ≡ 0)
        × (s.image.folder ≡ false)
  is_ready :
      s.image.loaded ≡ ready
      → ((s.image.folder ≡ true) × (s.image.registered ≡ true))
        ⊎ ((s.image.folder ≡ false)
            × (s.image.registered ≡ false)
            × (s.image.entry ≢ own)
            × (s.waiting + s.instances + s.refused ≡ 0))
