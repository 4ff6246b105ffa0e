-- ===== src/Engines/QemuImages.antt =====
-- engines/qemu/image/manager.go: the life of one image, from its entry into the map of the manager.
-- Each section of the manager's lock is one transition, as is what a request does once the image is
-- loaded. The manager's map is by id, so the entry of the image may be taken or deleted by others.
use taskcluster_worker.Prelude.{
  ℕ, ◌+◌, ◌-◌, ◌<◌, ◌≡◌, ◌≢◌, Bool, true, false, none, some, if◌then◌else◌,
}
use taskcluster_worker.Gc.Resource.{DisposableResource, acquire, release, can_dispose}

pub data Loading : Type 0 where
  loading ready failed : Loading

-- The entry of the manager's map for an id: there is none, it is this image, or it is another.
pub data Entry : Type 0 where
  absent own others : Entry

abbrev pub has_entry : Entry → Bool
has_entry absent = false
has_entry _ = true

-- `entry` is that for the id of the image; `registered` says that the garbage collector has the
-- image, and `folder` that its folder, which has a name of its own, is there.
pub record Image : Type 0 where
  pub resource : DisposableResource
  pub loaded : Loading
  pub entry : Entry
  pub registered : Bool
  pub folder : Bool

-- `Manager.Instance` makes it where the id is not known, acquires it, and waits for it.
abbrev pub new_image : Image
new_image = record {
  resource = acquire (record { ref_count = 0; last_used = 0 });
  loaded = loading;
  entry = own;
  registered = false;
  folder = true;
}

-- `loadImage`, where it ends without an error or with one.
unfoldable pub load : Bool → Image → Image
load ok i =
    if ok
    then record i { loaded = ready; registered = true }
    else record i { loaded = failed; entry = absent; folder = false }

-- `Instance` behind the wait, where the copy of the layer is made or not: the image, and whether it
-- returns an instance.
unfoldable pub wake : ℕ → Bool → Image → Image × Bool
unfolding release
wake now copies i = elim i.loaded [
  | failed ↦ (record i { resource = release now i.resource }, false)
  | _ ↦ (i, copies)
]

-- `Instance.Release`, of an instance that is not released.
unfoldable pub release_instance : ℕ → Image → Image
unfolding release
release_instance now i = record i { resource = release now i.resource }

-- `image.Dispose`, where the folder can be removed or not: it tests and deletes the entry for the id,
-- whichever image it is.
pub data Disposed : Type 0 where
  fine in_use not_removed panics : Disposed

unfoldable pub dispose : Bool → Image → Image × Disposed
unfolding can_dispose
dispose removes i = elim (can_dispose i.resource) [
  | some e ↦ (i, in_use)
  | none ↦
      if has_entry i.entry
      then (if removes
          then (record i { entry = absent; folder = false }, fine)
          else (record i { entry = absent }, not_removed))
      else (i, panics)
]

-- The image with the requests that wait for it, the instances that are not released, and the
-- requests that were refused an instance of the loaded image.
pub record Served : Type 0 where
  pub image : Image
  pub waiting : ℕ
  pub instances : ℕ
  pub refused : ℕ

abbrev pub first_request : Served
first_request = record { image = new_image; waiting = 1; instances = 0; refused = 0 }

-- At most `threads` requests have a reference at a time. The garbage collector keeps an image that
-- it could not dispose of, and drops one that it has. Where there is no entry for the id, a request
-- makes another image; an image with the same id that is disposed of, or that fails to load, deletes
-- the entry, whichever it is.
pub data Step (threads : ℕ) (s : Served) : Served → Type 0 where
  requests :
      {t : Served}
      → s.image.entry ≡ own
      → s.waiting + s.instances + s.refused < threads
      → t ≡ record s {
        image = record (s.image) { resource = acquire s.image.resource };
        waiting = s.waiting + 1;
      }
      → Step threads s t
  taken :
      {t : Served}
      → s.image.entry ≡ absent
      → t ≡ record s { image = record (s.image) { entry = others } }
      → Step threads s t
  deleted :
      {t : Served} → t ≡ record s { image = record (s.image) { entry = absent } } → Step threads s t
  loads :
      {t : Served} (ok : Bool)
      → s.image.loaded ≡ loading
      → t ≡ record s { image = load ok s.image }
      → Step threads s t
  fails :
      {t : Served} (now : ℕ) (copies : Bool)
      → s.image.loaded ≡ failed
      → 0 < s.waiting
      → t ≡ record s { image = (wake now copies s.image).0; waiting = s.waiting - 1 }
      → Step threads s t
  serves :
      {t : Served} (now : ℕ) (copies : Bool)
      → s.image.loaded ≡ ready
      → 0 < s.waiting
      → t ≡ record {
        image = (wake now copies s.image).0;
        waiting = s.waiting - 1;
        instances = s.instances + (if copies then 1 else 0);
        refused = s.refused + (if copies then 0 else 1);
      }
      → Step threads s t
  releases :
      {t : Served} (now : ℕ)
      → 0 < s.instances
      → t ≡ record s { image = release_instance now s.image; instances = s.instances - 1 }
      → Step threads s t
  collects :
      {t : Served} (removes : Bool)
      → s.image.registered ≡ true
      → (dispose removes s.image).1 ≢ fine
      → t ≡ record s { image = (dispose removes s.image).0 }
      → Step threads s t
  collected :
      {t : Served} (removes : Bool)
      → s.image.registered ≡ true
      → (dispose removes s.image).1 ≡ fine
      → t ≡ record s { image = record ((dispose removes s.image).0) { registered = false } }
      → Step threads s t

pub data Reach (threads : ℕ) : Served → Type 0 where
  here : Reach threads first_request
  next : {s t : Served} → Reach threads s → Step threads s t → Reach threads t
