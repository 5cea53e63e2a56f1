-- ===== src/Api.antt =====
-- The requests that change the catalog: tca/api/routes/channels.py and channel_groups.py together. Each
-- runs as one job of the writer queue, so a run of the program is a list of requests.
pub mod Sound
pub mod Runs
pub mod Plan
mod Removal
pub mod Refinement
mod Tests
use Prim.Native.String.{String}
use tca.Base.{ℕ, Bool, Option, List, [], ◌∷◌}
use tca.Base.Int.{ℤ}
use tca.Catalog.{Catalog, Field}
use tca.Channels.{create_channel}
use tca.Channels.Purge.{Archive}
use tca.Channels.Api.{ChannelPatch, patch_channel, delete_channel}
use tca.Groups.{create_group}
use tca.Groups.Api.{
  patch_channel_group, delete_channel_group, put_channel_group_membership,
  delete_channel_group_membership,
}

pub data Request : Type 0 where
  post_channel : ℕ → ℕ → String → Option String → Request
  patch_channel_request : ℕ → ChannelPatch → Request
  -- Its flag is `purge`.
  delete_channel_request : ℕ → Bool → Request
  post_group : String → Option String → Option ℤ → Request
  patch_group : ℕ → Field String → Field String → Field ℤ → Request
  delete_group_request : ℕ → Request
  put_membership delete_membership : ℕ → ℕ → Request

-- The archive after a request, whether or not it was answered with an error: only the purge of a channel
-- changes more than the catalog.
unfoldable pub handle : Request → Archive → Archive
unfolding create_channel create_group patch_channel delete_channel patch_channel_group
    delete_channel_group put_channel_group_membership delete_channel_group_membership
handle (post_channel account telegram name username) s = record s {
  catalog = (create_channel account telegram name username s.catalog).1;
}
handle (patch_channel_request i p) s = record s { catalog = (patch_channel i p s.catalog).1 }
handle (delete_channel_request i purge) s = (delete_channel i purge s).1
handle (post_group name description horizon) s = record s {
  catalog = (create_group name description horizon s.catalog).1;
}
handle (patch_group i name description horizon) s = record s {
  catalog = (patch_channel_group i name description horizon s.catalog).1;
}
handle (delete_group_request i) s = record s { catalog = (delete_channel_group i s.catalog).1 }
handle (put_membership g h) s = record s {
  catalog = (put_channel_group_membership g h s.catalog).1;
}
handle (delete_membership g h) s = record s {
  catalog = (delete_channel_group_membership g h s.catalog).1;
}

unfoldable pub handle_all : List Request → Archive → Archive
unfolding handle
handle_all [] s = s
handle_all (q ∷ qs) s = handle_all qs (handle q s)
