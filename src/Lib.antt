-- ===== src/Lib.antt =====
-- Glasswyrm: an X11 server (glasswyrmd), a compositor (gwcomp) and a window manager (gwm), three
-- processes that talk over a binary IPC. This library models the logic that decides what they do.
--
-- The server keeps windows with their properties, selections, atoms, grabs of the input devices and
-- regions of the screen. An operation on a window waits in the server's
-- lifecycle coordinator until the window manager has evaluated the snapshot that it leads to and the
-- compositor has accepted it; then it is committed, else it is rolled back on both. The window manager
-- builds up the snapshot in a transaction and evaluates it to a policy: where each window is, on which
-- output, what is visible, who has the focus, in which order they are stacked. The records between the
-- processes begin with an envelope and hold a payload; outputs are turned and scaled by the output
-- model. The compositor collects the damage of each output, and agrees with its peer on the state of
-- the session.
--
-- Files and code, by the paths of the repository:
--   Prelude            shared helpers: tests on numbers, lists, signed integers, gcd, std::map and
--                      sorting; no file of the program
--   Wm.Types           src/wm/types.hpp
--   Wm.Validation      src/wm/policy_validation.cpp
--   Wm.Placement       src/wm/policy_geometry.cpp and policy_output.cpp
--   Wm.Outputs         src/wm/multi_output_assignment.cpp and multi_output_geometry.cpp
--   Wm.MultiOutput     src/wm/multi_output_engine.cpp
--   Wm.Focus           src/wm/policy_focus.cpp
--   Wm.Ordering        src/wm/policy_ordering.cpp
--   Wm.Hash            src/wm/policy_hash.cpp
--   Wm.Engine          src/wm/policy_engine.cpp
--   Wm.Transaction     src/wm/transaction.hpp and transaction.cpp
--   Wm.Interaction     src/wm/interactive_policy.hpp and interactive_policy.cpp
--   Server.Lifecycle   src/glasswyrmd/lifecycle_types.hpp and lifecycle_coordinator.cpp: the rebase of
--                      an operation in Lifecycle.Rebase, the class in Lifecycle.Coordinator
--   Server.SelectionStore  src/glasswyrmd/selection_store.cpp
--   Server.AtomTable   src/glasswyrmd/atom_table.cpp
--   Server.XfixesRegion  src/glasswyrmd/xfixes_region.cpp
--   Server.GrabState   src/glasswyrmd/grab_state.hpp and grab_state.cpp: the types in State, the active
--                      grabs in Active, the passive ones in Buttons
--   Server.PropertyStore  src/glasswyrmd/property.cpp, in Data, and property_store.cpp
--   Geometry.Rectangle src/core/geometry/rectangle.cpp; Geometry.Merging has the inner loop that the
--                      regions share
--   Geometry.Region    src/core/geometry/region.cpp
--   Compositor.Rectangle  src/compositor/rectangle.cpp
--   Compositor.DamageRegion  src/compositor/damage_region.cpp
--   Gwcomp.SessionState  src/gwcomp/session_state_coordinator.cpp
--   Ipc.Bytes          src/ipc/wire/byte_writer.hpp and byte_reader.hpp
--   Ipc.Envelope       src/ipc/wire/envelope.cpp
--   Ipc.Fields         the form that the payloads share: fields of a width, one after the other
--   Ipc.Policy, Ipc.Session, Ipc.Compositor, Ipc.Lifecycle, Ipc.Input, Ipc.Outputs
--                      src/ipc/wire/policy_contract.cpp, session_contract.cpp,
--                      compositor_contract.cpp, lifecycle_contract.cpp, input_contract.cpp and
--                      output_contract.cpp
--   Output.Transform   src/output/model/transform.cpp
--   Output.Scale       src/output/model/scale.cpp
-- A child whose names its parent passes on, such as State or Data, holds a part of the parent's code;
-- every other child of a module that stands for code holds theorems on it, or its Examples.
--
-- A class is a record of its fields, a method a function from the state to the new state and its
-- result. Functions, fields and constants keep the program's names, without a trailing underscore and
-- without a leading k. A constructor that the language would confuse has another name: nothing for
-- None, idle, unset, stopped for Fatal. An enum that is cast from the wire has a constructor `other`
-- for the values without a name. Unsigned integers are numbers, with the wrap-around written out where
-- the code can reach it; int32_t is ℤ. std::map is an association list in the order of its keys.
-- A callback of the lifecycle coordinator is a function of all calls of callbacks before, so that it
-- may answer anything at any time. Of them only the completion callback calls the coordinator back: told
-- of a success, it may enqueue operations while the finished one is still active, as
-- src/glasswyrmd/interactive_wm.cpp does from complete_lifecycle in lifecycle_runtime.cpp; what it
-- enqueues is a function too. A callback that calls anything else of the coordinator is not modelled,
-- and the server has none. The preflight of a commit is a function of the policy. The sink of
-- the session state is a function of the change that it sends.
--
-- Bounds and fuel. The loop of the cycle test has as fuel one more than the number of windows, and it is
-- shown that this is enough. The depth of a window and the tree of its transient windows have the number
-- of windows as fuel, since a chain of a snapshot without a cycle is not longer. The loops that merge
-- rectangles have the number of the rectangles as fuel, one more for an XFixes region, since every round
-- removes one, and so does the inner loop of an XFixes region that looks for a pair from an index on;
-- that this is enough is shown of each. All other loops recurse on a list.
--
-- Not modelled: allocation failures, sockets, the event loops of the three processes, devices,
-- rendering, the X11 requests and extensions, the payloads of the IPC records that hold a color, a name
-- or a list, the control messages, the layout and the mapping of outputs, the tree of windows, the state
-- of the input devices, the scene of the compositor, and the separate hash of an interaction in
-- policy_hash.cpp.
pub mod Prelude
pub mod Geometry
pub mod Output
pub mod Compositor
pub mod Ipc
pub mod Server
pub mod Wm
pub mod Gwcomp
