-- ===== src/Rtm/Channel/Tests.antt =====
-- The laws of the channel at concrete inputs.
use kwmserver.Base.{◌≡◌, ◌↔◌, refl, ok, fail, plain, none, true, [], ◌∷◌, arith, string_eq, lookup}
use kwmserver.Rtm.World.{channel_default_config, in_channel, World}
use kwmserver.Rtm.Channel.{add, remove_id, cleanup, can_be_cleaned_up, new_channel}
use kwmserver.Rtm.Channel.Adding.{AddSpec, add-AddSpec, remove_id-in_channel}
use kwmserver.Rtm.Channel.Locked.{LockersBlock, add_taken_blocks}
use kwmserver.Rtm.Channel.Cleaning.{new_channel_cleans_empty, cleanup_closes, CleanupSpec}
use kwmserver.Rtm.Example.{
  example_env, example_world, example_world_with, example_group, example_members,
}

abbrev group_world : World
group_world = example_world_with none example_group (("alice", 11) ∷ [])

abbrev empty_world : World
empty_world = example_world_with none channel_default_config []

add-AddSpec_example : AddSpec group_world 21 "alice" 13 (add 21 "alice" 13 group_world)
add-AddSpec_example = add-AddSpec 21 "alice" 13 group_world

remove_id-in_channel_example :
    ((remove_id 21 "bob" example_world).0 ≡ ok tt)
    × (in_channel (remove_id 21 "bob" example_world).1 21 "bob" ≡ none)
remove_id-in_channel_example = remove_id-in_channel 21 "bob" example_world 21 "bob" refl

add_taken_blocks_example :
    ((add 21 "bob" 13 example_world).0 ≡ fail (plain "id already exists"))
    × LockersBlock 21 (add 21 "bob" 13 example_world).1
add_taken_blocks_example =
    add_taken_blocks 21 "bob" 13 12 example_world channel_default_config refl refl refl refl
      (unfold lookup in refl) λ e. ground arith

new_channel_cleans_empty_example :
    (can_be_cleaned_up
        (record ((new_channel example_env "*new" none example_world).1.channel_objects
          (new_channel example_env "*new" none example_world).0) { connections = example_members })
      ≡ true)
    ↔ (example_members ≡ [])
new_channel_cleans_empty_example =
    new_channel_cleans_empty example_env "*new" none example_world example_members

cleanup_closes_example : CleanupSpec 21 empty_world (cleanup 21 empty_world)
cleanup_closes_example = cleanup_closes 21 empty_world channel_default_config refl refl
