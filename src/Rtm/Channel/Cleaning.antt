-- ===== src/Rtm/Channel/Cleaning.antt =====
-- Channel.canBeCleanedUp and Channel.Cleanup of signaling/rtm/channel.go.
use kwmserver.Base.{
  Bool, true, false, String, Outcome, ◌↔◌, Ptr, Option, none, some, [], ◌∷◌, ◌≡◌, ◌≢◌, arith, ok,
  fail, plain, Dict, List-cases, ◌⊎◌, inl, inr,
}
use kwmserver.Rtm.World.{World, ChannelConfig, Env}
use kwmserver.Rtm.Group.{lock}
use kwmserver.Rtm.Channel.{add, cleanup, can_be_cleaned_up, new_channel}

-- A channel as NewChannel makes it has a configuration, given or not, so, whatever members it has
-- since, it can be cleaned up exactly if it has none.
pub new_channel_cleans_empty :
    (e : Env) (id : String) (config : Option ChannelConfig) (w : World) (members : Dict Ptr)
    → (can_be_cleaned_up
          (record ((new_channel e id config w).1.channel_objects (new_channel e id config w).0) {
            connections = members;
          })
        ≡ true)
      ↔ (members ≡ [])
unfolding new_channel can_be_cleaned_up
new_channel_cleans_empty e id config w [] = ground arith
new_channel_cleans_empty e id config w (m ∷ members) = ground arith

-- What Cleanup of an unlocked channel does: it succeeds if the channel is empty, and then the
-- channel is closed, has no pipeline, and refuses every connection; or nothing changes.
abbrev pub CleanupSpec : Ptr → World → Outcome Bool × World → Type 0
CleanupSpec p w r =
    ((r.0 ≡ ok true)
      × ((w.channel_objects p).connections ≡ [])
      × ((r.1.channel_objects p).closed ≡ true)
      × ((r.1.channel_objects p).pipeline ≡ none)
      × ((id : String) (conn : Ptr) → add p id conn r.1 ≡ (fail (plain "channel is closed"), r.1)))
    ⊎ ((r.0 ≡ ok false) × ((w.channel_objects p).connections ≢ []) × (r.1 ≡ w))

-- Cleanup of an unlocked channel with a configuration succeeds exactly if the channel is empty,
-- and then the channel is closed, has no pipeline, and refuses every connection; otherwise nothing
-- changes.
pub cleanup_closes :
    (p : Ptr) (w : World) (f : ChannelConfig)
    → (w.channel_objects p).config ≡ some f
    → (w.channel_objects p).locked ≡ false
    → CleanupSpec p w (cleanup p w)
unfolding cleanup can_be_cleaned_up lock add
cleanup_closes p w f set l = elim (List-cases (w.channel_objects p).connections) [
  | inl e ↦ inl (ground arith, e, ground arith, ground arith, λ id conn. ground arith)
  | inr (filled, _, ne) ↦ inr (ground arith, ne, ground arith)
]
