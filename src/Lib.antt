-- ===== src/Lib.antt =====
-- A model of the Aurora compositor, a framework for Wayland compositors, and proofs about it.
--
-- The program's parts and their files (paths from the repository's root):
-- - Xdg: the desktop shell, src/compositor/extensions/aurorawaylandxdgshell.cpp and its private
--   header. A client creates positioners (Xdg/Positioner), gives a wl_surface an xdg_surface
--   (Xdg/Surface) through the shell (Xdg/Shell), and gives that one role object, a toplevel
--   (Xdg/Toplevel) or a popup (Xdg/Popup). The compositor sends configures, which the client
--   acknowledges by their serials. A request or a method of the source is a function of the same name
--   in snake_case that returns the new object and the list of its effects (Xdg/Effect): errors posted
--   on a resource, warnings logged, Qt signals, and events sent to the client. A signal that the
--   xdg_surface and the shell both emit stands once. `set_role` is WaylandSurface::setRole in
--   src/compositor/compositor_api/aurorawaylandsurface.cpp.
--   Xdg/Decoration is src/compositor/extensions/aurorawaylandxdgdecorationv1.cpp, the decoration object
--   of a toplevel.
-- - Edid: EdidParser in src/platformsupport/edid/auroraedidparser.cpp, in its version for Qt 6:
--   Edid/Text the texts of the descriptors, Edid/Vendor the name of the manufacturer.
-- - Buffers: the client buffers of src/compositor/wayland_wrapper/aurorawlclientbuffer.cpp, their
--   register in aurorawlbuffermanager.cpp beside it, and the references to them,
--   src/compositor/compositor_api/aurorawaylandbufferref.cpp. `Op` is what surfaces and views do to
--   them: make a reference, assign one, destroy one, commit; or the client destroys a wl_buffer.
-- - Frames: the frame callbacks of a surface, which
--   src/compositor/compositor_api/aurorawaylandsurface.cpp keeps in two lists, before and after a
--   commit. The loop of `sendFrameCallbacks` runs for as many rounds as there are callbacks, which is
--   enough since each round takes one out or passes it.
-- - Views: src/compositor/compositor_api/aurorawaylandview.cpp, the buffers that a view of a surface
--   holds, and the list of views of each surface (`refView`, `derefView` and `setPrimaryView` of
--   aurorawaylandsurface.cpp). Damage, outputs and destruction are left out.
-- - Surfaces: the double-buffered state of a wl_surface in
--   src/compositor/compositor_api/aurorawaylandsurface.cpp, with Surfaces/Commit `surface_commit` and
--   Surfaces/Viewport the viewport, src/compositor/extensions/aurorawaylandviewporter.cpp. A request is
--   a function of its name; `Request` (Surfaces/Requests) lists them. What a buffer reference tells of
--   its buffer is a record `Buffers`; the division of a size by a
--   scale of 0 (`divide`) is the result `none`. A surface has one record
--   with the frame callbacks of Frames in it.
-- - LayerShell: src/compositor/extensions/aurorawaylandwlrlayershellv1.cpp. A request writes the pending
--   state, and a commit of the wl_surface (`handle_redraw`, a lambda in the source) applies it.
--   LayerShell/Layout is aurorawaylandsurfacelayout.cpp beside it, which places the layer surfaces of an
--   output and sends them their sizes; its lengths are numbers of half pixels.
-- - Outputs: the output configurations of
--   src/compositor/extensions/aurorawaylandwlroutputmanagementv1.cpp; Outputs/Head the configuration of
--   one head. A request is a function of its name; its events and signals are a list of `ConfigEffect`.
-- - SessionLock: src/compositor/extensions/aurorawaylandextsessionlockv1.cpp, the manager and the lock
--   objects; SessionLock/Surface the lock surfaces. What the manager reads of seats and views is a
--   record `Desktop`; a null pointer that is used is the result `none`. `handle_surface_damaged` stands
--   for a slot that is connected to a signal that does not exist, so nothing calls it.
-- - Input: src/compositor/compositor_api/aurorawaylandseat.cpp, aurorawaylandkeyboard.cpp and
--   aurorawaylandpointer.cpp. Input/Keyboard the keyboard with its focus, keys, modifiers (what
--   xkbcommon computes is an argument, and whether there is an xkb context) and repeat settings; Input/Pointer the pointer and the mouse focus
--   of the seat; Input/Devices the devices that follow the capabilities of the seat. A function with a
--   Q_ASSERT returns `none` where it fails. `resetKeyboardState` runs for
--   as many rounds as there are keys, which is enough since each round takes one out.
-- - Geometry: the sizes, points, rectangles and edges of the toolkit; Geometry/Regions its QRegion.
--   Base: what all files share.
--
-- How the code is modelled:
-- - An `int` is an unbounded ℤ, and overflow is a matter of bounds on its values. A byte, an index and a
--   serial are numbers; the one wrap-around of the code, in the serial number of an EDID, is written out.
-- - Objects of C++ are named by numbers where only their identity matters. QList is a list, QSet a
--   list without repetition, the multimap of xdg_surfaces a list of entries. Values of QSizeF,
--   QRectF and qreal are scaled integers in the EDID, in viewports and in output configurations, and a
--   type with its operations as parameters in `size_for_resize`.
-- - What is not under the repository's control is a parameter: the serials that the display hands out
--   are arguments, of which a theorem may assume that each is above the one before; the vendor
--   table, the lines of pnp.ids, QString::number and QRect::contains are arguments of the functions
--   that use them.
-- - A read or a write outside an array in the EDID parser is the result `none`.
-- - All loops are structural recursions, on a list or on the rounds left.
--
-- What is not modelled: subsurfaces and the lifetime of surfaces, the contents of buffers, keymaps,
-- touch and cursors, what output heads and modes tell the clients, the other protocol extensions, the
-- Qt Quick items, the hardware integrations, the platform support but for the EDID parser, Xwayland and
-- the platform plugin; of xdg-shell the requests that only forward a signal.
pub mod Base
pub mod Buffers
pub mod Frames
pub mod Geometry
pub mod Input
pub mod LayerShell
pub mod Outputs
pub mod SessionLock
pub mod Surfaces
pub mod Views
pub mod Xdg
pub mod Edid
