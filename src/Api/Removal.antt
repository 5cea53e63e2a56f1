-- ===== src/Api/Removal.antt =====
-- What the purge of a channel makes of the plan.
use tca.Base.{
  ℕ, ◌≡◌, refl, sym, ap, ◌∙◌, inl, inr, Bool, true, false, not, ◌&&◌, Option, none, some, arith,
  ◌==◌, if◌then◌else◌, is_some, Bool-cases, keep, find_row, find_row-keep, is_some-find_row,
}
use tca.Store.Keys.{without_key}
use tca.Catalog.{
  ChannelRecord, ChannelGroupMembershipRecord, Catalog, is_channel, is_of_channel, has_channel,
  is_assigned,
}
use tca.Channels.{get_channel_by_id}
use tca.Channels.Purge.{Archive, drop_channel, purge_channel, purge_found}
use tca.Channels.Api.{delete_channel, purged_response}
use tca.Groups.{get_membership_by_channel_id}
use tca.Groups.Plan.{group_of, group_in}
use tca.Api.Plan.{Agrees, view, without_channel}
use tca.Api.Sound.{IsSound}

-- A table of one row for each channel, without those of the channel `i`.
group_in-keep :
    (i k : ℕ) (c : Catalog)
    → group_in (
        find_row
          (is_of_channel k)
          (keep (λ (m : ChannelGroupMembershipRecord). not (i == m.channel_id)) c.memberships))
      ≡ (if k == i then none else group_of k c)
unfolding get_membership_by_channel_id
group_in-keep i k c =
    ap group_in (
      find_row-keep (is_of_channel k) (λ m. not (i == m.channel_id)) (not (k == i)) c.memberships
        (λ m h. ground arith))
    ∙ chosen (k == i)
  where
    chosen :
        (b : Bool)
        → group_in (if not b then find_row (is_of_channel k) c.memberships else none)
          ≡ (if b then none else group_in (find_row (is_of_channel k) c.memberships))
    chosen true = refl
    chosen false = refl

-- A channel that is not there is in no group.
missing-group_of :
    (i k : ℕ) (c : Catalog)
    → IsSound c
    → has_channel i c ≡ false
    → group_of k c ≡ (if k == i then none else group_of k c)
unfolding get_membership_by_channel_id
missing-group_of i k c v missing_ =
    unassigned (find_row (is_of_channel k) c.memberships)
      (is_some-find_row (is_of_channel k) c.memberships)
  where
    unassigned :
        (o : Option ChannelGroupMembershipRecord)
        → is_some o ≡ is_assigned k c
        → group_in o ≡ (if k == i then none else group_in o)
    unassigned none e = ground arith
    unassigned (some m) e = ground (arith, v.membership_channel k, missing_)

-- The catalog that a purge leaves has no such channel, and no group for it.
abbrev pub Purges : ℕ → Catalog → Catalog → Type 0
Purges i c c' =
    Agrees (view c').channels (λ k. has_channel k c && not (i == k))
    × Agrees (view c').groups (view c).groups
    × Agrees (view c').group_of (without_channel i (view c).group_of)

drop_channel-Purges : (i : ℕ) (c : Catalog) → Purges i c (drop_channel i c)
unfolding drop_channel get_membership_by_channel_id
drop_channel-Purges i c = (
  λ k. without_key (λ (r : ChannelRecord). r.id) i k c.channels,
  λ k. refl,
  λ k. group_in-keep i k c,
)

missing-Purges : (i : ℕ) (c : Catalog) → IsSound c → has_channel i c ≡ false → Purges i c c
missing-Purges i c v missing_ = (
  λ k. elim (Bool-cases (i == k)) [ inl e ↦ ground (arith, missing_, e) | inr e ↦ ground arith ],
  λ k. refl,
  λ k. missing-group_of i k c v missing_,
)

pub delete_channel-Purges :
    (i : ℕ) (s : Archive)
    → IsSound s.catalog
    → Purges i s.catalog (delete_channel i true s).1.catalog
unfolding delete_channel purge_channel get_channel_by_id
delete_channel-Purges i s v =
    found_or_not (get_channel_by_id i s.catalog)
      (is_some-find_row (is_channel i) s.catalog.channels)
  where
    found_or_not :
        (o : Option ChannelRecord)
        → is_some o ≡ has_channel i s.catalog
        → Purges i s.catalog (purged_response i (purge_found i s o)).1.catalog
    found_or_not none e = missing-Purges i s.catalog v (sym e)
    found_or_not (some r) e = drop_channel-Purges i s.catalog
