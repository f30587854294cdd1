-- ===== src/Rtm/Close/Tests.antt =====
-- What closing a connection does, at concrete inputs.
use kwmserver.Base.{
  String, Ptr, ◌≡◌, ◌≢◌, refl, ok, some, none, false, [], arith, eq_iff, lookup, insert, nat_eq,
  string_eq, true, ◌∷◌,
}
use kwmserver.Rtm.World.{channel_default_config, in_channel, World}
use kwmserver.Rtm.Channel.{add, add_to, store, register, remove_from}
use kwmserver.Rtm.Group.{lock}
use kwmserver.Connection
use kwmserver.Rtm.Close.{close_connection}
use kwmserver.Rtm.Close.Wired.{IsWired, add-IsWired, remove_from-IsWired}
use kwmserver.Rtm.Close.Histories.{Step, adds, here, next, Step-IsWired, reached_close_leaves}
use kwmserver.Rtm.Close.Membership.{Runs, joins as joined_event, has_joined}
use kwmserver.Rtm.Close.Simulates.{event_of, events_of, Reach-Runs, Reach-joined}
use kwmserver.Rtm.Close.Leaves.{IsUnlocked, close_leaves_channels}
use kwmserver.Rtm.Example.{example_world, example_world_with}

example-IsWired : IsWired example_world
unfolding lookup
example-IsWired = record {
  wired = λ p id conn here open_. ground (arith, eq_iff "alice" id, eq_iff "bob" id);
}

example-IsUnlocked : IsUnlocked example_world
example-IsUnlocked = record { unlocked = λ p. ground arith }

add-IsWired_example : IsWired (add 21 "carol" 13 example_world).1
add-IsWired_example = add-IsWired 21 "carol" 13 example_world example-IsWired

remove_from-IsWired_example :
    IsWired (remove_from 21 (example_world.channel_objects 21) "bob" 12 example_world).1
remove_from-IsWired_example = remove_from-IsWired 21 "bob" 12 example_world example-IsWired

close_leaves_channels_example :
    ((close_connection 1000 12 example_world).0 ≡ ok tt)
    × ((p : Ptr) (id : String)
        → in_channel (close_connection 1000 12 example_world).1 p id ≢ some 12)
close_leaves_channels_example =
    close_leaves_channels 1000 12 example_world example-IsWired example-IsUnlocked refl

-- bob joins the empty channel, and his connection closes.
abbrev empty_world : World
empty_world = example_world_with none channel_default_config []

abbrev joined_world : World
joined_world = (add 21 "bob" 12 empty_world).1

empty_lem : (p : Ptr) (id : String) → in_channel empty_world p id ≡ none
unfolding lookup
empty_lem p id = ground arith

joins : Step empty_world joined_world
joins = adds empty_world 21 "bob" 12

joined_keeps :
    ((p : Ptr) → (joined_world.channel_objects p).locked ≡ false)
    × ((joined_world.conns 12).closed ≡ false)
unfolding add add_to store register lock lookup insert Connection.on_closed
joined_keeps = (λ p. ground (arith), ground arith)

joined-IsUnlocked : IsUnlocked joined_world
joined-IsUnlocked = record { unlocked = joined_keeps.0 }

Step-IsWired_example : IsWired joined_world
Step-IsWired_example =
    Step-IsWired joins (record { wired = λ p id conn here open_. ground (arith, empty_lem p id) })

reached_close_leaves_example :
    ((close_connection 1000 12 joined_world).0 ≡ ok tt)
    × ((p : Ptr) (id : String)
        → in_channel (close_connection 1000 12 joined_world).1 p id ≢ some 12)
reached_close_leaves_example =
    reached_close_leaves 1000 12 empty_lem (next here joins) joined-IsUnlocked joined_keeps.1

Reach-Runs_example :
    Runs (in_channel empty_world) (joined_event 21 "bob" 12 ∷ []) (in_channel joined_world)
unfolding events_of event_of joins
Reach-Runs_example = Reach-Runs (next here joins)

bob_inside : in_channel joined_world 21 "bob" ≡ some 12
unfolding add add_to store register lock lookup insert
bob_inside = refl

Reach-joined_example : has_joined 21 "bob" 12 (events_of (next here joins)) ≡ true
Reach-joined_example = Reach-joined 21 "bob" 12 (next here joins) (empty_lem 21 "bob") bob_inside
