-- ===== src/Lib.antt =====
-- The browser client of the CCTV timeline viewer: ctv_web/js. The server sends recordings per camera
-- (Recording); the client draws them on a timeline, plays the cameras in step with one clock, and
-- moves a camera to the front when one of its recordings starts. The modules stand for these parts:
--
-- Recording: the JSON of a timeline that all parts read: cameras, recordings and events.
-- Media: ctv_web/js/media.js, the queries and decisions that the player and the timeline call.
--   Media.Search has upperBoundStart and recordingAt, Media.Index has intervalIndex, Media.Query has
--   collectOverlaps, overlappingSegments, findRightmostActive, latestRecordingAt and
--   lastSegmentStartingBetween, Media.Playback has the seek target, the completion test, the buffer
--   thresholds, the playback plan and the maps between timeline and media time, Media.Median has
--   medianTime, and Media.Progress has aggregatePartitionProgress.
-- Geometry: ctv_web/js/geometry.js, the place of a popover and the range that shows a time.
-- EventPlayback: ctv_web/js/event-playback.js, the filter by events and the next playable time.
-- Hotspot: ctv_web/js/hotspot.js, which calls the queries of Media for every visible camera.
-- Timeline: ctv_web/js/timeline.js, the range on view and the clock under panning (panZoomByPixels, and
--   the same arithmetic in the pointermove and wheel listeners), zooming, fitting, seeks from clicks
--   (seekFromTimelineTarget, seekTo) and jumps (jumpToBoundary). What these do to the players is left
--   out here. Timeline.Whole has the numbers with a sign.
-- Audio: ctv_web/js/player-audio.js, the camera that may be heard; the list of videos is state, since
--   `sync` mutes and unmutes them.
-- Cameras: ctv_web/js/app.js, the list of cameras, their saved order (sortCamerasByOrder, onCamDrop),
--   which are visible (loadCameras, toggleVisibleCamera) and the hotspot order (hotspotCameras,
--   promoteHotspotCamera), which calls Hotspot.
-- Layout: ctv_web/js/app.js, the grid of the hotspot layout (updateGridLayout,
--   applyHotspotCellPositions).
-- Player: ctv_web/js/player.js, one video per camera and one clock for all. Player.Video is a video with
--   its cell, Player.World what the operations on a video read and cannot change, and Ledger what they
--   write besides it; Player.Barrier.Player has all of these. Player.Ready has the predicates on a
--   video, Player.Source what gives it a source, seeks and fails it, Player.Warm how it fills its
--   buffer, Player.Barrier the buffering barrier and the alignment, Player.Page the cells and the step
--   to the next recording, Player.Ended the end of a recording, Player.Sync the leaders that wait,
--   Player.Clock the checks of a tick and Player.Clock.Tick the tick itself, Player.Controls what the
--   user does, Player.Events the handlers of the media element and late answers, and
--   Player.Promotion the cameras that the clock brings to the front.
-- Trace: ctv_web/js/playback-trace.js, what the session recorder computes: boundedPush,
--   accumulateSession, EventBuckets and measuredDiagnostics.
-- Base: the names and lemmas that the others share. Examples: runs of the code, and each theorem at an
--   input.
--
-- A function is named as in the source, in snake_case. A number of the source is a natural number of
-- thousandths (1.5 s is 1500), so that quotients are rounded down to a thousandth and the doubles'
-- rounding is not modelled; NaN is not modelled either, and null, undefined and numbers that
-- the code tests with Number.isFinite are `none`. Extended has the infinities where the code computes
-- with them. A map with keys is an association list or a function. performance.now() has one value for
-- a whole handler. What a media element does at once is written out (pause, play, load and a new
-- currentTime); what follows later is an event, of which the handler is a function.
--
-- A loop or recursion that is not over a list takes fuel: the length of the array and one more for the
-- binary searches, whose range halves, and the size of the tree and one more for the walks over
-- it, whose depth is its logarithm. Running out of fuel, and reading outside an array, is `none`, and
-- the theorems on these queries say that it does not happen.
--
-- Not modelled: the WeakMap that keeps the index of an array, the drag of the timeline and its inertia,
-- the drawing and the frame callbacks of the player, loading, polling and the forms of app.js, the
-- recorder of the playback trace with its storage and its listeners, the dialogs, icons and
-- translations, all other drawing, and the server.
pub mod Base
pub mod Recording
pub mod Media
pub mod Geometry
pub mod EventPlayback
pub mod Hotspot
pub mod Timeline
pub mod Audio
pub mod Layout
pub mod Cameras
pub mod Player
pub mod Trace
pub mod Examples
