-- ===== src/Filter/Event/Vocabulary.antt =====
-- The property table of src/pwf_filter_event.c, read in both directions.
use tinypipewire.Common.{ℕ, ◌≡◌, ◌≢◌, String, eq_iff, some, arith}
use tinypipewire.Filter.Event.{PropIds, property_find_by_name, property_find_by_id}

-- SPA gives the three properties different ids.
pub record Distinct (ids : PropIds) : Type 0 where
  pub volume_mute : ids.volume ≢ ids.mute
  pub volume_channel : ids.volume ≢ ids.channel_volumes
  pub mute_channel : ids.mute ≢ ids.channel_volumes

-- If SPA's ids differ: an entry found under a name carries that name, and is the one that its id leads
-- back to, so a property that is encoded by name and id is decoded under the same name.
pub property_find_by_id-name :
    (ids : PropIds) (name found : String) (id : ℕ)
    → Distinct ids
    → property_find_by_name ids (some name) ≡ some (found, id)
    → (found ≡ name) × (property_find_by_id ids id ≡ some (name, id))
unfolding property_find_by_name property_find_by_id
property_find_by_id-name ids name found id d h =
    ground (arith, eq_iff "volume" name, eq_iff "mute" name, eq_iff "channelVolumes" name)
